-- ===== src/Peer/Call/Ownership.antt =====
-- The message of a request, from its allocation to the end of the call.
use zmq_ipc.Prelude.{
  ℕ, zero, suc, ◌≡◌, ◌≢◌, refl, inl, inr, Bool-cases, Option, none, some, List, ◌∷◌, arith, nat_eq,
  nat_beq, if◌then◌else◌,
}
use zmq_ipc.Prelude.Dict.{find}
use zmq_ipc.FlatBuffers.{FlatBuffers}
use zmq_ipc.Nng.{msg_alloc, sendmsg}
use zmq_ipc.Nng.Ownership.{owned, after_call, holds, release}
use zmq_ipc.Peer.State.{
  Peer, Shared, unset, value, broken, called, EndsIn, IfDone, IfDone-bind, EndsIn-IfDone,
}
use zmq_ipc.Peer.Pending.{generate_request_id, make_promise, register_pending, erase_pending}
use zmq_ipc.Peer.Messages.{request_buffer}
use zmq_ipc.Peer.Pending.Laws.{IsSound}
use zmq_ipc.Peer.Call.Ends.{Over, Respect, call-Over}
use zmq_ipc.Peer.Call.{
  Gap, generated, registered, send_failed, sent, timed_out, Calling, abandon, end_wait,
  send_request, await_response, call,
}

abbrev pub Owns : List ℕ → Peer → Type 0
Owns ps s = owned s.calls ≡ some ps

alloc-Owns :
    (m rv : ℕ) (ps : List ℕ) (s : Peer)
    → rv ≡ 0
    → Owns ps s
    → Owns (m ∷ ps) (called (msg_alloc m rv) s)
unfolding owned after_call
alloc-Owns m zero ps s z h = rw h
alloc-Owns m (suc rv) ps s z h = absurd (ground arith)

no_alloc-Owns :
    (m rv : ℕ) (ps : List ℕ) (s : Peer) → rv ≢ 0 → Owns ps s → Owns ps (called (msg_alloc m rv) s)
unfolding owned after_call
no_alloc-Owns m zero ps s ne h = absurd (ne refl)
no_alloc-Owns m (suc rv) ps s ne h = rw h

sent-Owns :
    (m : ℕ) (body ps : List ℕ) (s : Peer) → Owns (m ∷ ps) s → Owns ps (called (sendmsg m body 0) s)
unfolding owned after_call holds release
sent-Owns m body ps s h = rw h (ground arith)

unsent-Owns :
    (m rv : ℕ) (body ps : List ℕ) (s : Peer)
    → rv ≢ 0
    → Owns (m ∷ ps) s
    → Owns (m ∷ ps) (called (sendmsg m body rv) s)
unfolding owned after_call holds
unsent-Owns m zero body ps s ne h = absurd (ne refl)
unsent-Owns m (suc rv) body ps s ne h = rw h (ground arith)

-- What a call leaves owned, of messages and of its own request.
unfoldable pub left_owned : Calling → List ℕ → List ℕ
left_owned e ps = if nat_beq e.alloc 0 then (if nat_beq e.sending 0 then ps else e.msg ∷ ps) else ps

-- Others that leave ownership as it is.
abbrev pub KeepOwned : Calling → Type 0
KeepOwned e = (g : Gap) (ps : List ℕ) (s : Peer) → Owns ps s → IfDone (Owns ps) (e.others g s)

module _ (fb : FlatBuffers) (e : Calling) (keep : KeepOwned e) (i : ℕ) (ps : List ℕ) where
  -- the same of a call, which gives bytes too
  abbrev OwnsAfter : List ℕ → Option (List ℕ) × Peer → Type 0
  OwnsAfter qs x = Owns qs x.1

  abandon-Owns :
      (g : Gap) (qs : List ℕ) (s : Peer)
      → Owns qs s
      → IfDone (OwnsAfter qs) (abandon (e.others g) i s)
  unfolding abandon erase_pending
  abandon-Owns g qs s h = IfDone-bind (Owns qs) (OwnsAfter qs) _ _ (λ t k. k) (keep g qs s h)

  end_wait-Owns :
      (x : Option Shared) (s : Peer) → Owns ps s → IfDone (OwnsAfter ps) (end_wait e i x s)
  unfolding end_wait
  end_wait-Owns (some unset) s h = abandon-Owns timed_out ps s h
  end_wait-Owns (some (value r)) s h = h
  end_wait-Owns (some broken) s h = tt
  end_wait-Owns none s h = tt

  -- what a send leaves owned
  abbrev after_send : List ℕ
  after_send = if nat_beq e.sending 0 then ps else e.msg ∷ ps

  send_request-Owns :
      (p : ℕ) (buf : List ℕ) (s : Peer)
      → Owns (e.msg ∷ ps) s
      → IfDone (OwnsAfter after_send) (send_request fb e i p buf s)
  unfolding send_request
  send_request-Owns p buf s h = elim (Bool-cases (nat_beq e.sending 0)) [
    | inl ok ↦
        let z : e.sending ≡ 0 = ground arith in
        rw z (
          IfDone-bind (Owns ps) (OwnsAfter ps) _ _ (λ u. end_wait-Owns (find p u.promises) u)
            (keep sent ps _ (sent-Owns e.msg buf ps s h)))
    | inr ko ↦
        let nz : e.sending ≢ 0 = λ z. ground arith in
        rw ko (abandon-Owns send_failed (e.msg ∷ ps) _ (unsent-Owns e.msg e.sending buf ps s nz h))
  ]

  await_response-Owns :
      (buf : List ℕ) (s : Peer)
      → Owns (e.msg ∷ ps) s
      → IfDone (OwnsAfter after_send) (await_response fb e i buf s)
  unfolding await_response make_promise register_pending
  await_response-Owns buf s h =
      IfDone-bind (Owns (e.msg ∷ ps)) (OwnsAfter after_send) _ _
        (send_request-Owns s.next_promise buf) (keep registered (e.msg ∷ ps) _ h)

call-Owns :
    (fb : FlatBuffers) (e : Calling) (name load ps : List ℕ) (s : Peer)
    → KeepOwned e
    → Owns ps s
    → IfDone (λ x. Owns (left_owned e ps) x.1) (call fb e name load s)
unfolding call generate_request_id left_owned
call-Owns fb e name load ps s keep h = elim (Bool-cases (nat_beq e.alloc 0)) [
  | inl ok ↦
      let z : e.alloc ≡ 0 = ground arith in
      rw ok (
        IfDone-bind (Owns (e.msg ∷ ps))
          (OwnsAfter fb e keep s.next_request_id ps (after_send fb e keep s.next_request_id ps)) _ _
          (await_response-Owns fb e keep s.next_request_id ps
            (request_buffer fb s.next_request_id name load))
          (keep generated (e.msg ∷ ps) _ (alloc-Owns e.msg e.alloc ps s z h)))
  | inr ko ↦
      let nz : e.alloc ≢ 0 = λ z. ground arith in rw ko (no_alloc-Owns e.msg e.alloc ps s nz h)
]

-- A call ends with a sound table, its request no longer pending, and what was owned before it, if its request
-- was sent or it got no message; if the send fails, its message stays owned besides, for good, since only
-- the call knew it. The others leave ownership as it is, the table of pending requests is sound, the
-- id is not in use, and the others respect the call.
pub call-left_owned :
    (fb : FlatBuffers) (e : Calling) (name load ps : List ℕ) (P : Option (List ℕ) → Type 0)
    (s : Peer)
    → IsSound s
    → find s.next_request_id s.pending_requests ≡ none
    → Respect e s.next_request_id P
    → KeepOwned e
    → owned s.calls ≡ some ps
    → EndsIn
        (λ x. Over s.next_request_id P x × (owned x.1.calls ≡ some (left_owned e ps)))
        (call fb e name load s)
call-left_owned fb e name load ps P s h new r keep o =
    EndsIn-IfDone (Over s.next_request_id P) (λ x. owned x.1.calls ≡ some (left_owned e ps)) _
      (call-Over fb e name load P s h new r) (call-Owns fb e name load ps s keep o)
