-- ===== src/Peer/Call/Ends.antt =====
-- How a call ends, whatever the callbacks and the other calls do in the meantime.
use zmq_ipc.Prelude.{
  ℕ, ◌≡◌, ◌≢◌, subst, inl, inr, Bool-cases, Option, none, some, List, [], ◌∷◌, arith, nat_eq,
  nat_beq,
}
use zmq_ipc.Prelude.Dict.{find, find-erase}
use zmq_ipc.FlatBuffers.{FlatBuffers}
use zmq_ipc.Nng.{sendmsg, msg_alloc}
use zmq_ipc.Peer.State.{Peer, EndsIn, EndsIn-bind, EndsIn-map}
use zmq_ipc.Peer.Pending.{generate_request_id, make_promise, erase_pending}
use zmq_ipc.Peer.Pending.Laws.{
  IsSound, IsSound-called, generate_request_id-IsSound, erase_pending-IsSound,
}
use zmq_ipc.Peer.Pending.Tracks.{Tracks, Tracks-called, Waiting, start-Tracks}
use zmq_ipc.Peer.Call.{
  Gap, generated, registered, send_failed, sent, timed_out, Calling, non_empty, abandon, end_wait,
  send_request, await_response, call,
}

-- The end of call `i`: the table is sound, the request is no longer pending, and the bytes that the call
-- gives, if any, came from a result that has `P`.
abbrev pub Over : ℕ → (Option (List ℕ) → Type 0) → Option (List ℕ) × Peer → Type 0
Over i P (r, t) =
    IsSound t
    × (find i t.pending_requests ≡ none)
    × ((bytes : List ℕ) → r ≡ some bytes → (bytes ≢ []) × P (some bytes))

erase_pending-gone : (i : ℕ) (s : Peer) → find i (erase_pending i s).pending_requests ≡ none
unfolding erase_pending
erase_pending-gone i s = ground (arith, find-erase i i s.pending_requests)

pub non_empty-some :
    (P : Option (List ℕ) → Type 0) (r : Option (List ℕ)) (bytes : List ℕ)
    → P r
    → non_empty r ≡ some bytes
    → (bytes ≢ []) × P (some bytes)
unfolding non_empty
non_empty-some P none bytes h e = cc
non_empty-some P (some []) bytes h e = cc
non_empty-some P (some (x ∷ xs)) bytes h e = (λ q. cc (e, q), subst P e h)

-- What the others must do in the gaps of call `i`: until it is registered, keep the table sound; then
-- also answer it at most once, with a result that has `P`, and not end it otherwise.
pub record Respect (e : Calling) (i : ℕ) (P : Option (List ℕ) → Type 0) : Type 0 where
  pub before : (s : Peer) → IsSound s → EndsIn IsSound (e.others generated s)
  pub after : (p : ℕ) (g : Gap) (s : Peer) → Tracks i p P s → EndsIn (Tracks i p P) (e.others g s)

module _ (e : Calling) (i p : ℕ) (P : Option (List ℕ) → Type 0) (r : Respect e i P) where
  abandon-Over :
      (g : Gap) (s : Peer) → Tracks i p P s → EndsIn (Over i P) (abandon (e.others g) i s)
  unfolding abandon
  abandon-Over g s h =
      EndsIn-map (Tracks i p P) (Over i P) (λ t. (none, erase_pending i t)) _
        (λ t k. (erase_pending-IsSound i t k.sound, erase_pending-gone i t, λ bytes q. cc))
        (r.after p g s h)

  end_wait-Over :
      (s : Peer) → Tracks i p P s → EndsIn (Over i P) (end_wait e i (find p s.promises) s)
  unfolding end_wait
  end_wait-Over s h = go h.waiting
    where
      go : Waiting i p P s → EndsIn (Over i P) (end_wait e i (find p s.promises) s)
      go (inl w) = rw (h.sound.waits i p w) (abandon-Over timed_out s h)
      go (inr (x, good, gone, v)) = rw v (h.sound, gone, λ bytes q. non_empty-some P x bytes good q)

  send_request-Over :
      (fb : FlatBuffers) (buf : List ℕ) (s : Peer)
      → Tracks i p P s
      → EndsIn (Over i P) (send_request fb e i p buf s)
  unfolding send_request
  send_request-Over fb buf s h =
      let k = Tracks-called i p P (sendmsg e.msg buf e.sending) s h in
      elim (Bool-cases (nat_beq e.sending 0)) [
        | inl ok ↦
            rw ok (EndsIn-bind (Tracks i p P) (Over i P) _ _ end_wait-Over (r.after p sent _ k))
        | inr ko ↦ rw ko (abandon-Over send_failed _ k)
      ]

module _ (fb : FlatBuffers) (e : Calling) (i : ℕ) (P : Option (List ℕ) → Type 0)
    (r : Respect e i P) where
  await_response-Over :
      (buf : List ℕ) (s : Peer) → IsSound s → EndsIn (Over i P) (await_response fb e i buf s)
  unfolding await_response make_promise
  await_response-Over buf s h =
      EndsIn-bind (Tracks i s.next_promise P) (Over i P) _ _
        (send_request-Over e i s.next_promise P r fb buf)
        (r.after s.next_promise registered _ (start-Tracks i P s h))

-- Whatever the results of nng and however long the wait: a call ends with a sound table, its request is
-- no longer pending, and the bytes that it gives, if any, are those of a response to it. No promise is
-- set twice or found broken.
pub call-Over :
    (fb : FlatBuffers) (e : Calling) (name load : List ℕ) (P : Option (List ℕ) → Type 0) (s : Peer)
    → IsSound s
    → find s.next_request_id s.pending_requests ≡ none
    → Respect e s.next_request_id P
    → EndsIn (Over s.next_request_id P) (call fb e name load s)
unfolding call generate_request_id
call-Over fb e name load P s h new r =
    let t = (generate_request_id s).1 in
    let k = generate_request_id-IsSound s h in
    let k' = IsSound-called (msg_alloc e.msg e.alloc) t k in
    elim (Bool-cases (nat_beq e.alloc 0)) [
      | inl ok ↦ rw ok (
          EndsIn-bind IsSound (Over s.next_request_id P) _ _
            (await_response-Over fb e s.next_request_id P r _) (r.before _ k'))
      | inr ko ↦ rw ko (k', new, λ bytes q. cc)
    ]
