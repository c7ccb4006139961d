-- ===== src/Dial/Exchange/Typed.antt =====
-- A typed call from the dialling peer to the listening one, and back.
use zmq_ipc.Prelude.{
  ℕ, ◌<◌, ◌≡◌, ◌≢◌, refl, sym, subst, true, Option, some, List, [], length, bytes_eq, ==-refl,
}
use zmq_ipc.Prelude.Dict.{find, find-assign}
use zmq_ipc.FlatBuffers.{FlatBuffers, FlatBuffersLaws, max_size}
use zmq_ipc.Peer.State.{Peer, done}
use zmq_ipc.Peer.Messages.{request_buffer, response_buffer}
use zmq_ipc.Peer.Pending.Laws.{IsSound}
use zmq_ipc.Params.Reads.{Reads}
use zmq_ipc.Params.Kinds.{Kind, Value, Fits, seen, response_table, request_of, response_of}
use zmq_ipc.Dial.{Answer, call_remote}
use zmq_ipc.Dial.Typed.{
  listener_wrapper, listener_with_method, listener_wrapper-response_of, response_of-Reads,
}
use zmq_ipc.Dial.Exchange.{Wire, exchange}
use zmq_ipc.Dial.Exchange.Answered.{call_remote-answered}
use zmq_ipc.Listener

-- The call returns true, with a buffer in which a reader of the kind `r` sees `y`.
pub record Returns (fb : FlatBuffers) (r : Kind) (y : Value r) (a : Answer) : Type 0 where
  pub returned : a.returned ≡ true
  pub bytes : List ℕ
  pub given : a.resp_buf ≡ some bytes
  pub size : a.resp_size ≡ length bytes
  pub reads : Reads fb (response_table fb r).verify (response_table fb r).value y bytes

module _ {fb : FlatBuffers} (laws : FlatBuffersLaws fb) (q r : Kind) (f : Value q → Value r)
    (x : Value q) where
  found_method :
      (name : List ℕ) (s : Peer)
      → find name (listener_with_method fb q r f name s).method_map
        ≡ some (listener_wrapper fb q r f)
  unfolding Listener.register_method
  found_method name s =
      rw (find-assign name name (listener_wrapper fb q r f) s.method_map, ==-refl name)

  -- A call, of any of the kinds of generated tables, of a method that the listening peer has registered and that
  -- computes `f`, returns true and a buffer that verifies as the method's response, and whose value is that
  -- of `f` at the value that was sent, but that -0.0 reads as 0.0 on both ways. The values fit their fields, the
  -- buffers and messages are below the size limit, and every call of nng succeeds.
  pub call_remote-Returns :
      (w : Wire) (server : Peer) (name : List ℕ) (buf : Option (List ℕ)) (size : ℕ) (s : Peer)
      → IsSound s
      → Fits q x
      → Fits r (f (seen q x))
      → length (request_of fb q x) < max_size
      → length (response_of fb r (f (seen q x))) < max_size
      → length (request_buffer fb s.next_request_id name (request_of fb q x)) < max_size
      → length (response_buffer fb s.next_request_id name (response_of fb r (f (seen q x))))
        < max_size
      → (a : Answer) × (t : Peer) × (call_remote fb
            (exchange fb w (listener_with_method fb q r f name server))
            name
            (request_of fb q x)
            buf
            size
            s
          ≡ done (a, t))
        × Returns fb r (seen r (f (seen q x))) a
  call_remote-Returns w server name buf size s h fits fits' asked told small small' =
      let same = listener_wrapper-response_of laws q r f x fits asked [] in
      let (t, run) =
        call_remote-answered laws w (listener_with_method fb q r f name server) name
          (request_of fb q x) buf size s h small (listener_wrapper fb q r f)
          (found_method name server)
          (subst (λ l. length (response_buffer fb s.next_request_id name l) < max_size) (sym same)
            small')
          (subst (λ l. l ≢ []) (sym same) (laws.finish_nonempty _ _)) in
      (
        _,
        t,
        run,
        record {
          returned = refl;
          bytes = listener_wrapper fb q r f (request_of fb q x) [];
          given = refl;
          size = refl;
          reads =
              subst (Reads fb _ _ _) (sym same)
                (response_of-Reads laws q r f x fits asked fits' told);
        },
      )
