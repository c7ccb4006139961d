-- ===== src/Network/Typed.antt =====
-- Typed calls between two peers.
use zmq_ipc.Prelude.{ℕ, ◌<◌, ◌≡◌, ◌∙◌, sym, ap, subst, none, some, List, [], length}
use zmq_ipc.FlatBuffers.{FlatBuffers, FlatBuffersLaws, max_size}
use zmq_ipc.Peer.State.{HandlerFunc}
use zmq_ipc.Params.Reads.{Reads}
use zmq_ipc.Params.Kinds.{Kind, Value, Fits, seen, response_table, request_of, response_of}
use zmq_ipc.Dial.Typed.{
  dial_wrapper, listener_wrapper, dial_wrapper-response_of, listener_wrapper-response_of,
  response_of-Reads,
}
use zmq_ipc.Network.{Offers, Ask, over, Side, dialling, listening, other, World, Run}
use zmq_ipc.Network.Invariant.{Fits as MessagesFit}
use zmq_ipc.Network.Invariant.Reached.{IsStart}
use zmq_ipc.Network.Peers.{replies, calls-IsResult}

-- what register_method of the class on side `x` makes of a method that computes `f`
abbrev pub wrapper_of : FlatBuffers → Side → (q r : Kind) → (Value q → Value r) → HandlerFunc
wrapper_of fb dialling q r f = dial_wrapper fb q r f
wrapper_of fb listening q r f = listener_wrapper fb q r f

-- A call with a request of the kind `q` for the value `v`, of a method that is registered under its name on the
-- side `x` for nothing but `f`.
pub record IsTyped (fb : FlatBuffers) (methods : Offers) (x : Side) (a : Ask) (q r : Kind)
    (f : Value q → Value r) (v : Value q) : Type 0 where
  pub asked : a.req_buf ≡ request_of fb q v
  pub only : (h : HandlerFunc) → methods a.method_name h → h ≡ wrapper_of fb x q r f
  pub fits : Fits q v
  pub small : length (request_of fb q v) < max_size
  pub result_fits : Fits r (f (seen q v))
  pub result_small : length (response_of fb r (f (seen q v))) < max_size

module _ {fb : FlatBuffers} (laws : FlatBuffersLaws fb) where
  pub wrapper_of-response_of :
      (x : Side) (q r : Kind) (f : Value q → Value r) (v : Value q)
      → Fits q v
      → length (request_of fb q v) < max_size
      → wrapper_of fb x q r f (request_of fb q v) [] ≡ response_of fb r (f (seen q v))
  wrapper_of-response_of dialling q r f v h small = dial_wrapper-response_of laws q r f v h small []
  wrapper_of-response_of listening q r f v h small =
      listener_wrapper-response_of laws q r f v h small []

  -- Any number of calls of a dialling and a listening peer at each other, at the same time and in both
  -- directions: a call with a request of one kind of generated table, of a method that is registered for no other
  -- function than `f` under its name, is given, if it is over with bytes, a buffer that verifies as the
  -- method's response, and whose value is that of `f` at the value that was sent, but that -0.0 reads as 0.0 on
  -- both ways. Messages may be lost, repeated and reordered, and other methods of any sort called and
  -- registered. Calls start on fresh peers, values fit their fields, all buffers and messages are below the
  -- size limit, and the ids do not wrap.
  pub typed_calls-Reads :
      {methods : Side → Offers} {asks : Side → ℕ → Ask}
      (fits : (x : Side) → MessagesFit fb (methods (other x)) (asks x)) {w v : World} (x : Side)
      (k i : ℕ) (bytes : List ℕ) (q r : Kind) (f : Value q → Value r) (a : Value q)
      → IsTyped fb (methods (other x)) (other x) (asks x k) q r f a
      → IsStart methods w
      → Run fb (replies fb) methods asks w v
      → (v x).caller k ≡ over i (some bytes)
      → Reads fb
          (response_table fb r).verify
          (response_table fb r).value
          (seen r (f (seen q a)))
          bytes
  typed_calls-Reads {asks} fits x k i bytes q r f a typed s run ended =
      let (_, (h, offered, result)) = calls-IsResult laws fits x k i bytes s run ended in
      let is : h ≡ wrapper_of fb (other x) q r f = typed.only h offered in
      let same : bytes ≡ response_of fb r (f (seen q a)) =
        ap (λ o. elim o [ none ↦ bytes | some l ↦ l ]) result
        ∙ (ap (λ g. g (asks x k).req_buf []) is
            ∙ (ap (λ l. wrapper_of fb (other x) q r f l []) typed.asked
                ∙ wrapper_of-response_of (other x) q r f a typed.fits typed.small)) in
      subst (Reads fb _ _ _) (sym same)
        (response_of-Reads laws q r f a typed.fits typed.small typed.result_fits typed.result_small)
