-- ===== src/Examples/Messages.antt =====
-- The messages and the ids, at concrete values.
use zmq_ipc.Prelude.{◌+◌, ◌^◌, ◌<◌, ◌≡◌, ◌≢◌, refl, arith, [], ◌∷◌}
use zmq_ipc.FlatBuffers.{max_size}
use zmq_ipc.FlatBuffers.Sample.{sample, sample-laws, encode, store, add, added, fields_of}
use zmq_ipc.Prelude.{ℕ, List, none, some, length, nat_eq}
use zmq_ipc.Prelude.Dict.{find}
use zmq_ipc.Rpc.{request, response, enum_name}
use zmq_ipc.Rpc.{create_rpc_message, create_rpc_message_direct}
use zmq_ipc.Rpc.RoundTrip.{Carries}
use zmq_ipc.Rpc.Direct.{Holds}
use zmq_ipc.Rpc.Creating.{create_rpc_message_direct-Holds}
use zmq_ipc.Params.Reads.{buffer_of}
use zmq_ipc.Peer.Messages.{
  request_buffer, response_buffer, request_buffer-Carries, response_buffer-Carries,
}
use zmq_ipc.Peer.Pending.Ids.{nth_id, nth_id-ne}
use zmq_ipc.Examples.Setup.{echo_name, echo, argument, small_request, small_response, caller}

request_buffer-Carries_example :
    Carries sample (request_buffer sample 1 echo_name argument) request 1 echo_name argument
request_buffer-Carries_example =
    request_buffer-Carries sample-laws 1 echo_name argument (omega arith) small_request

response_buffer-Carries_example :
    Carries sample
      (response_buffer sample 1 echo_name (echo argument []))
      response
      1
      echo_name
      (echo argument [])
response_buffer-Carries_example =
    response_buffer-Carries sample-laws 1 echo_name (echo argument []) (omega arith) small_response

nth_id-ne_example :
    (nth_id 2 caller ≢ nth_id 5 caller)
    × (nth_id 2 caller < 2 ^ 32)
    × (nth_id (2 + 2 ^ 32) caller ≡ nth_id 2 caller)
nth_id-ne_example = nth_id-ne 2 5 caller (omega arith) (omega arith) (omega arith)

enum_name_run : enum_name response ≡ b'R' ∷ b'E' ∷ b'S' ∷ b'P' ∷ b'O' ∷ b'N' ∷ b'S' ∷ b'E' ∷ []
unfolding enum_name
enum_name_run = refl

-- a response with no method
abbrev nameless : List ℕ
nameless =
    buffer_of sample
      (create_rpc_message_direct sample response 5 none (some argument) sample.new_builder)

small_nameless : length nameless < max_size
unfolding create_rpc_message_direct create_rpc_message encode store add added fields_of find
small_nameless = omega arith

create_rpc_message_direct-Holds_example : Holds sample nameless response 5 none (some argument)
create_rpc_message_direct-Holds_example =
    create_rpc_message_direct-Holds sample-laws response 5 none (some argument) (omega arith)
      (omega arith) small_nameless
