-- ===== src/Peer/Pending/Tracks.antt =====
-- One request followed through what everybody else does to the table.
use zmq_ipc.Prelude.{
  ℕ, ◌≡◌, ◌≢◌, ◌∙◌, ◌⊎◌, inl, inr, Option, none, some, List, arith, nat_eq, Option-cases,
}
use native.Mathlib.Decide.{ℕ_discrete}
use zmq_ipc.Prelude.Dict.{find, find-erase, find-assign}
use zmq_ipc.Nng.{NngCall}
use zmq_ipc.Peer.State.{Peer, unset, value, called, EndsIn}
use zmq_ipc.Peer.Pending.{
  make_promise, register_pending, erase_pending, resolve_pending, drop_entry,
}
use zmq_ipc.Peer.Pending.Laws.{
  IsSound, IsSound-called, resolved, resolved-IsSound, resolve_pending-some, resolve_pending-none,
  erase_pending-IsSound, register_pending-IsSound, find-drop_entry, make_promise-IsSound,
}

-- Request `i` waits at promise `p`, or it has been answered, with a result that has `P`, and is no longer
-- pending.
abbrev pub Waiting : ℕ → ℕ → (Option (List ℕ) → Type 0) → Peer → Type 0
Waiting i p P s =
    (find i s.pending_requests ≡ some p)
    ⊎ ((r : Option (List ℕ)) × P r
        × (find i s.pending_requests ≡ none)
        × (find p s.promises ≡ some (value r)))

pub record Tracks (i p : ℕ) (P : Option (List ℕ) → Type 0) (s : Peer) : Type 0 where
  pub sound : IsSound s
  pub waiting : Waiting i p P s

module _ (i p : ℕ) (P : Option (List ℕ) → Type 0) where
  pub Tracks-called : (c : NngCall) (s : Peer) → Tracks i p P s → Tracks i p P (called c s)
  Tracks-called c s h = record { sound = IsSound-called c s h.sound; waiting = h.waiting }

  -- A response to this request answers it, and one to another leaves it as it is.
  resolved-Waiting :
      (j q : ℕ) (r : Option (List ℕ)) (s : Peer)
      → IsSound s
      → find j s.pending_requests ≡ some q
      → (j ≡ i → P r)
      → Waiting i p P s
      → Waiting i p P (resolved j q r s)
  resolved-Waiting j q r s h e fits (inl w) = elim (ℕ_discrete j i) [
    | yes same ↦ inr (
      r,
      fits same,
      ground (arith, find-erase j i s.pending_requests),
      ground (arith, find-assign q p (value r) s.promises),
    )
    | no other ↦ inl (ground (arith, find-erase j i s.pending_requests))
  ]
  resolved-Waiting j q r s h e fits (inr (x, good, gone, v)) = inr (
    x,
    good,
    ground (arith, find-erase j i s.pending_requests),
    ground (arith, find-assign q p (value r) s.promises, h.waits j q e),
  )

  pub resolve_pending-Tracks :
      (j : ℕ) (r : Option (List ℕ)) (s : Peer)
      → (j ≡ i → P r)
      → Tracks i p P s
      → EndsIn (Tracks i p P) (resolve_pending j r s)
  resolve_pending-Tracks j r s fits h = elim (Option-cases (find j s.pending_requests)) [
    | inl e ↦ rw (resolve_pending-none j r s e) h
    | inr (q, e) ↦ rw (resolve_pending-some j q r s h.sound e) (record {
      sound = resolved-IsSound j q r s h.sound e;
      waiting = resolved-Waiting j q r s h.sound e fits h.waiting;
    })
  ]

  -- An answered request keeps its answer when another entry is dropped.
  kept_answer :
      (j : ℕ) (x : Option (List ℕ)) (s : Peer)
      → IsSound s
      → find p s.promises ≡ some (value x)
      → find p (drop_entry (find j s.pending_requests) s.promises) ≡ some (value x)
  kept_answer j x s h v = find-drop_entry _ p _ (λ q. cc (v, h.waits j p q)) ∙ v

  erased-Waiting :
      (j : ℕ) (s : Peer) → i ≢ j → IsSound s → Waiting i p P s → Waiting i p P (erase_pending j s)
  unfolding erase_pending
  erased-Waiting j s ne h (inl w) = inl (ground (arith, find-erase j i s.pending_requests, ne))
  erased-Waiting j s ne h (inr (x, good, gone, v)) =
      inr (x, good, ground (arith, find-erase j i s.pending_requests), kept_answer j x s h v)

  -- The end of another request, which has another id.
  pub erase_pending-Tracks :
      (j : ℕ) (s : Peer) → i ≢ j → Tracks i p P s → Tracks i p P (erase_pending j s)
  erase_pending-Tracks j s ne h = record {
    sound = erase_pending-IsSound j s h.sound;
    waiting = erased-Waiting j s ne h.sound h.waiting;
  }

  registered-Waiting :
      (j q : ℕ) (s : Peer)
      → i ≢ j
      → IsSound s
      → Waiting i p P s
      → Waiting i p P (register_pending j q s)
  unfolding register_pending
  registered-Waiting j q s ne h (inl w) =
      inl (ground (arith, find-assign j i q s.pending_requests, ne))
  registered-Waiting j q s ne h (inr (x, good, gone, v)) =
      inr (x, good, ground (arith, find-assign j i q s.pending_requests, ne), kept_answer j x s h v)

  -- The start of another request, under another id and with a promise of its own.
  pub register_pending-Tracks :
      (j q : ℕ) (s : Peer)
      → i ≢ j
      → find q s.promises ≡ some unset
      → ((k : ℕ) → find k s.pending_requests ≢ some q)
      → Tracks i p P s
      → Tracks i p P (register_pending j q s)
  register_pending-Tracks j q s ne fresh free h = record {
    sound = register_pending-IsSound j s h.sound q fresh free;
    waiting = registered-Waiting j q s ne h.sound h.waiting;
  }

-- A new promise has no result and belongs to no request.
pub make_promise_fresh :
    (s : Peer)
    → IsSound s
    → (find s.next_promise (make_promise s).1.promises ≡ some unset)
      × ((j : ℕ) → find j (make_promise s).1.pending_requests ≢ some s.next_promise)
unfolding make_promise
make_promise_fresh s h = (
  ground (arith, find-assign s.next_promise s.next_promise unset s.promises),
  λ j e. absurd (omega (arith, h.below _ unset (h.waits j _ e))),
)

-- From its start on, a request is tracked.
pub start-Tracks :
    (i : ℕ) (P : Option (List ℕ) → Type 0) (s : Peer)
    → IsSound s
    → Tracks i s.next_promise P (register_pending i s.next_promise (make_promise s).1)
start-Tracks i P s h =
    let (fresh, free) = make_promise_fresh s h in
    record {
      sound = register_pending-IsSound i _ (make_promise-IsSound s h) _ fresh free;
      waiting = inl (
          unfold register_pending in
          ground (arith, find-assign i i s.next_promise (make_promise s).1.pending_requests));
    }
