-- ===== src/Dial/Receiving.antt =====
-- The receive callback of the dialling peer: the table of pending requests, and nng's messages.
use zmq_ipc.Prelude.{
  Option, none, ℕ, ◌≡◌, ◌≢◌, refl, ◌⊎◌, inl, inr, true, Bool-cases, some, List, ◌∷◌, nat_beq, arith,
}
use zmq_ipc.FlatBuffers.{FlatBuffers}
use zmq_ipc.Nng.{NngCall, recv_aio}
use zmq_ipc.Nng.Ownership.{owned, holds, release}
use zmq_ipc.Rpc.{verify, type, method, payload, request}
use zmq_ipc.Peer.State.{
  Peer, Outcome, done, fault, null_pointer, no_message, promise_already_satisfied, broken_promise,
  called, EndsIn, ◌>>=◌,
}
use zmq_ipc.Peer.Pending.Laws.{
  IsSound, IsSound-called, resolve_pending-EndsIn, resolve_pending-IsSound, resolve_pending-calls,
}
use zmq_ipc.Peer.Pending.{resolve_pending}
use zmq_ipc.Peer.Receive.{Received, handle_response}
use zmq_ipc.Peer.Receive.Branches.{taken, finished, receive_cases, KeptBy-all, receive-EndsIn}
use zmq_ipc.Dial.{reply, recv_cb}

-- How a callback should end: with the next receive started, and owning what it owned before, but for a
-- response that could not be sent. It may crash at a request without a method or a payload, or for want of
-- memory for the response, and in no other way.
abbrev pub EndsClean : FlatBuffers → Received → List ℕ → Outcome Peer → Type 0
EndsClean fb e ps (fault null_pointer) =
    (nat_beq (type fb (fb.get_root e.body)) request ≡ true)
    × ((method fb (fb.get_root e.body) ≡ none) ⊎ (payload fb (fb.get_root e.body) ≡ none))
EndsClean fb e ps (fault no_message) = e.rsp_alloc ≢ 0
EndsClean fb e ps (fault promise_already_satisfied) = ⊥
EndsClean fb e ps (fault broken_promise) = ⊥
EndsClean fb e ps (done t) =
    ((cs : List NngCall) × (t.calls ≡ recv_aio e.aio ∷ cs))
    × ((owned t.calls ≡ some ps) ⊎ ((owned t.calls ≡ some (e.rsp_msg ∷ ps)) × (e.rsp_send ≢ 0)))

-- A message that is taken and freed leaves what was owned.
pub owned-finished :
    (e : Received) (s t : Peer) (ps : List ℕ)
    → owned s.calls ≡ some ps
    → t.calls ≡ (taken e s).calls
    → owned (finished e t).calls ≡ some ps
unfolding owned holds release
owned-finished e s t ps h q = ground arith

module _ (fb : FlatBuffers) where
  reply-EndsIn :
      (e : Received) (i : ℕ) (name resp : List ℕ) (s : Peer)
      → IsSound s
      → EndsIn IsSound (reply fb e i name resp s)
  unfolding reply
  reply-EndsIn e i name resp s h = elim (Bool-cases (nat_beq e.rsp_alloc 0)) [
    | inl q ↦ rw q (IsSound-called _ _ (IsSound-called _ s h))
    | inr q ↦ rw q tt
  ]

  -- Whatever message arrives, the callback ends with a sound table of pending requests, or at a null
  -- pointer or a failed allocation, and never with an exception of a promise.
  pub recv_cb-EndsIn : (e : Received) (s : Peer) → IsSound s → EndsIn IsSound (recv_cb fb e s)
  unfolding recv_cb handle_response
  recv_cb-EndsIn e =
      receive-EndsIn fb (reply fb) e IsSound (KeptBy-all _ _ IsSound-called) (reply-EndsIn e)
        λ s _. resolve_pending-EndsIn _ _ s

  module _ (e : Received) (s : Peer) (ps : List ℕ) (h : owned s.calls ≡ some ps) where
    replied-EndsClean :
        (i : ℕ) (name resp : List ℕ)
        → EndsClean fb e ps (reply fb e i name resp (taken e s) >>= λ t. done (finished e t))
    unfolding reply owned holds release
    replied-EndsClean i name resp = elim (Bool-cases (nat_beq e.rsp_alloc 0)) [
      | inl q ↦ rw q ((_, refl), ground arith)
      | inr q ↦ rw q (λ z. ground arith)
    ]

    resolved-EndsClean :
        (i : ℕ) (r : Option (List ℕ))
        → IsSound s
        → EndsClean fb e ps (resolve_pending i r (taken e s) >>= λ t. done (finished e t))
    resolved-EndsClean i r sound =
        let (t, run, _) = resolve_pending-IsSound i r (taken e s) (IsSound-called _ s sound) in
        rw run
          ((_, refl), inl (owned-finished e s t ps h (resolve_pending-calls i r (taken e s) t run)))

    failed-owned : owned (called (recv_aio e.aio) s).calls ≡ some ps
    unfolding owned
    failed-owned = ground arith

    -- A callback whose message is no malformed one starts the next receive, frees the message that it was given,
    -- and breaks no rule of ownership, whichever branch it takes; a response that it could not send is all that it
    -- may still own. It ends so unless it reads a null pointer, and then its message is a request in
    -- which the method or the payload is left out, or gets no memory for the response; no promise throws. The
    -- table of pending requests is sound.
    pub recv_cb-EndsClean :
        IsSound s
        → fb.verify_buffer (verify fb) (fb.verifier e.body) ≡ true
        → EndsClean fb e ps (recv_cb fb e s)
    unfolding recv_cb
    recv_cb-EndsClean sound v =
        receive_cases fb (reply fb) (EndsClean fb e ps) e s ((_, refl), inl failed-owned)
          (λ w. cc (v, w)) ((_, refl), inl (owned-finished e s (taken e s) ps h refl))
          (λ asked left_out. (asked, left_out)) (λ i name load f _. replied-EndsClean i name _)
          λ _. unfold handle_response in resolved-EndsClean _ _ sound
