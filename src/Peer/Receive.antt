-- ===== src/Peer/Receive.antt =====
-- recv_cb of src/NngUdsRpcPeerDial.cpp, which src/NngUdsRpcPeerListener.cpp repeats but for the way that a
-- response is sent: that is the argument `reply`. Log output is left out. A handler is a function of
-- bytes: it does not call back into its peer.
pub mod Branches
pub mod Arming
pub mod Direct
use zmq_ipc.Prelude.{
  ℕ, Bool, true, false, Option, none, some, List, [], nat_beq, bytes_eq, if◌then◌else◌,
}
use zmq_ipc.Prelude.Dict.{find}
use zmq_ipc.FlatBuffers.{FlatBuffers}
use zmq_ipc.Nng.{aio_get_msg, recv_aio, msg_free}
use zmq_ipc.Rpc.{request, response, type, id, method, payload, verify}
use zmq_ipc.Peer.State.{Peer, HandlerFunc, Outcome, done, fault, null_pointer, called, ◌>>=◌}
use zmq_ipc.Peer.Pending.{resolve_pending}

-- What nng hands to one run of the callback: the aio and its result, the message received and its
-- bytes, and the results of the calls that may follow.
pub record Received : Type 0 where
  pub aio : ℕ
  pub result : ℕ
  pub msg : ℕ
  pub body : List ℕ
  pub rsp_alloc : ℕ
  pub rsp_msg : ℕ
  pub rsp_send : ℕ

-- The copy of the payload, or the null pointer that stands for none.
abbrev pub payload_bytes : (fb : FlatBuffers) → Option fb.Vec → Option (List ℕ)
payload_bytes fb none = none
payload_bytes fb (some v) = some (fb.bytes v)

module _ (fb : FlatBuffers) (reply : Received → ℕ → List ℕ → List ℕ → Peer → Outcome Peer) where
  -- the request's payload, read through its pointer, goes to the handler
  unfoldable pub call_handler :
      Received → fb.Table → List ℕ → HandlerFunc → Option fb.Vec → Peer → Outcome Peer
  call_handler e t name handler none s = fault null_pointer
  call_handler e t name handler (some v) s = reply e (id fb t) name (handler (fb.bytes v) []) s

  unfoldable pub serve_found :
      Received → fb.Table → List ℕ → Option HandlerFunc → Peer → Outcome Peer
  unfolding call_handler
  serve_found e t name none s = done s
  serve_found e t name (some handler) s = call_handler e t name handler (payload fb t) s

  unfoldable pub serve_named : Received → fb.Table → Option fb.Str → Peer → Outcome Peer
  unfolding serve_found
  serve_named e t none s = fault null_pointer
  serve_named e t (some p) s = serve_found e t (fb.str p) (find (fb.str p) s.method_map) s

  -- case RpcMessageType_REQUEST
  unfoldable pub handle_request : Received → fb.Table → Peer → Outcome Peer
  unfolding serve_named
  handle_request e t s = serve_named e t (method fb t) s

  -- case RpcMessageType_RESPONSE
  unfoldable pub handle_response : fb.Table → Peer → Outcome Peer
  handle_response t s = resolve_pending (id fb t) (payload_bytes fb (payload fb t)) s

  -- switch (rpc_msg->type())
  unfoldable pub handle_message : Received → fb.Table → Peer → Outcome Peer
  handle_message e t s =
      if nat_beq (type fb t) request
      then handle_request e t s
      else if nat_beq (type fb t) response
      then handle_response t s
      else done s

  -- the message is freed and the next receive started, but not after a buffer that fails to verify
  unfoldable pub recv_message : Received → Peer → Outcome Peer
  recv_message e s =
      if fb.verify_buffer (verify fb) (fb.verifier e.body)
      then (do
        t ← handle_message e (fb.get_root e.body) s
        done (called (recv_aio e.aio) (called (msg_free e.msg) t)))
      else done s

  unfoldable pub receive : Received → Peer → Outcome Peer
  receive e s =
      if nat_beq e.result 0
      then recv_message e (called (aio_get_msg e.msg) s)
      else done (called (recv_aio e.aio) s)
