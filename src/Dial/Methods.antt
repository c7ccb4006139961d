-- ===== src/Dial/Methods.antt =====
-- The methods that a dialling peer has registered.
use zmq_ipc.Prelude.{
  ℕ, ◌≡◌, ◌≢◌, ◌∙◌, Option, some, List, [], bytes_eq, ==-refl, ==-ne, if◌then◌else◌,
}
use zmq_ipc.Prelude.Dict.{find, find-assign}
use zmq_ipc.FlatBuffers.{FlatBuffers}
use zmq_ipc.Nng.{msg_alloc, sendmsg}
use zmq_ipc.Rpc.{request}
use zmq_ipc.Rpc.RoundTrip.{Carries}
use zmq_ipc.Peer.State.{Peer, HandlerFunc, done, called}
use zmq_ipc.Peer.Messages.{response_buffer}
use zmq_ipc.Peer.Receive.{Received}
use zmq_ipc.Peer.Receive.Branches.{taken, finished, receive_of_request}
use zmq_ipc.Dial.{dispatch, wrapper, register_method, reply, recv_cb, run_handler}

module _ (fb : FlatBuffers) where
  -- The response to a request for a registered method holds what `dispatch` writes for its payload.
  recv_cb-dispatch :
      (e : Received) (s : Peer) (i : ℕ) (name load : List ℕ) (handler : HandlerFunc)
      → e.result ≡ 0
      → e.rsp_alloc ≡ 0
      → Carries fb e.body request i name load
      → find name s.method_map ≡ some handler
      → recv_cb fb e s
        ≡ done (
            finished e (
              called
                (sendmsg e.rsp_msg (response_buffer fb i name (dispatch s name load [])) e.rsp_send)
                (called (msg_alloc e.rsp_msg e.rsp_alloc) (taken e s))))
  unfolding recv_cb reply dispatch
  recv_cb-dispatch e s i name load handler ok allocated c found =
      receive_of_request fb (reply fb) e s i name load handler ok c found ∙ rw (allocated, found)

  pub dispatch_registered :
      (verify : fb.Table → fb.Verifier → Option fb.Verifier)
      (handler : fb.Table → fb.Builder → ℕ × fb.Builder) (name req out : List ℕ) (s : Peer)
      → dispatch (register_method fb verify name handler s) name req out
        ≡ wrapper fb verify handler req out
  unfolding dispatch register_method run_handler
  dispatch_registered verify handler name req out s =
      rw (find-assign name name (wrapper fb verify handler) s.method_map, ==-refl name)

  -- After a registration, dispatching the method's name runs the new handler on a request that verifies
  -- and writes nothing for one that does not; every other name is dispatched as before.
  dispatch-register_method :
      (verify : fb.Table → fb.Verifier → Option fb.Verifier)
      (handler : fb.Table → fb.Builder → ℕ × fb.Builder) (name other req out : List ℕ) (s : Peer)
      → name ≢ other
      → (dispatch (register_method fb verify name handler s) name req out ≡ (
          if fb.verify_buffer verify (fb.verifier req)
          then fb.get_buffer (
              fb.finish
                (handler (fb.get_root req) fb.new_builder).0
                (handler (fb.get_root req) fb.new_builder).1)
          else out))
        × (dispatch (register_method fb verify name handler s) other req out
            ≡ dispatch s other req out)
  unfolding dispatch register_method wrapper
  dispatch-register_method verify handler name other req out s ne = (
    rw (find-assign name name (wrapper fb verify handler) s.method_map, ==-refl name),
    rw (find-assign name other (wrapper fb verify handler) s.method_map, ==-ne name other ne),
  )
