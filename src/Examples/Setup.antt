-- ===== src/Examples/Setup.antt =====
-- A caller and a server, and the messages of one call.
use zmq_ipc.Prelude.{ℕ, ◌<◌, List, [], ◌∷◌, arith, nat_eq, length}
use zmq_ipc.Prelude.Dict.{find}
use zmq_ipc.FlatBuffers.{max_size}
use zmq_ipc.FlatBuffers.Sample.{sample, sample-laws, encode, store, add, added, fields_of}
use zmq_ipc.Rpc.{create_rpc_message}
use zmq_ipc.Rpc.RoundTrip.{Carries}
use zmq_ipc.Rpc.{request, response}
use zmq_ipc.Peer.State.{Peer, HandlerFunc}
use zmq_ipc.Peer.Messages.{
  request_buffer, response_buffer, request_buffer-Carries, response_buffer-Carries,
}
use zmq_ipc.Peer.Pending.Laws.{IsSound}
use zmq_ipc.Peer.Receive.{Received}
use zmq_ipc.Dial.Exchange.{Wire}

-- "echo" puts a 7 before its argument, and "mute" writes nothing
abbrev pub echo_name : List ℕ
echo_name = b'e' ∷ b'c' ∷ b'h' ∷ b'o' ∷ []

abbrev pub mute_name : List ℕ
mute_name = b'm' ∷ b'u' ∷ b't' ∷ b'e' ∷ []

abbrev pub echo : HandlerFunc
echo req out = 7 ∷ req

abbrev pub mute : HandlerFunc
mute req out = out

abbrev pub argument : List ℕ
argument = 1 ∷ 2 ∷ []

abbrev pub caller : Peer
caller = record {
  address = b'x' ∷ [];
  num_workers = 2;
  aio_list = [];
  method_map = [];
  next_request_id = 1;
  pending_requests = [];
  promises = [];
  next_promise = 0;
  calls = [];
}

abbrev pub server : Peer
server = record caller { method_map = (echo_name, echo) ∷ (mute_name, mute) ∷ [] }

pub caller-IsSound : IsSound caller
unfolding find
caller-IsSound = record {
  waits = λ i p e. cc;
  own = λ i j p e f. cc;
  below = λ p x e. cc;
  id_fits = omega arith;
}

pub server-IsSound : IsSound server
server-IsSound = record {
  waits = caller-IsSound.waits;
  own = caller-IsSound.own;
  below = caller-IsSound.below;
  id_fits = caller-IsSound.id_fits;
}

abbrev pub wire : Wire
wire = record {
  request_msg = 10;
  caller_aio = 20;
  caller_msg = 11;
  server_aio = 30;
  server_msg = 12;
  response_msg = 13;
}

pub small_request : length (request_buffer sample 1 echo_name argument) < max_size
unfolding request_buffer create_rpc_message encode store add added fields_of find
small_request = omega arith

pub small_response : length (response_buffer sample 1 echo_name (echo argument [])) < max_size
unfolding response_buffer create_rpc_message encode store add added fields_of find
small_response = omega arith

abbrev pub request_body : List ℕ
request_body = request_buffer sample 1 echo_name argument

abbrev pub response_body : List ℕ
response_body = response_buffer sample 1 echo_name (echo argument [])

pub request-Carries : Carries sample request_body request 1 echo_name argument
request-Carries =
    request_buffer-Carries sample-laws 1 echo_name argument (omega arith) small_request

pub response-Carries : Carries sample response_body response 1 echo_name (echo argument [])
response-Carries =
    response_buffer-Carries sample-laws 1 echo_name (echo argument []) (omega arith) small_response

abbrev pub received : List ℕ → ℕ → Received
received body sending = record {
  aio = 30;
  result = 0;
  msg = 12;
  body = body;
  rsp_alloc = 0;
  rsp_msg = 13;
  rsp_send = sending;
}
