-- ===== src/Peer/Pending/Laws.antt =====
-- What every operation on the table of pending requests keeps.
use zmq_ipc.Prelude.{
  ℕ, ◌^◌, ◌<◌, ◌≡◌, ◌≢◌, refl, ◌∙◌, ◌⊎◌, inl, inr, Option, none, some, List, arith, nat_eq,
  Option-cases,
}
use zmq_ipc.Prelude.Dict.{Dict, find, erase, assign, find-erase, find-assign}
use zmq_ipc.Nng.{NngCall}
use zmq_ipc.Peer.State.{Peer, Shared, unset, value, broken, done, called, EndsIn}
use zmq_ipc.Peer.Pending.{
  generate_request_id, make_promise, register_pending, erase_pending, resolve_pending, drop_entry,
}

-- Every pending request has a promise of its own, with no result yet; addresses are not used twice, and
-- the next id is a uint32_t.
pub record IsSound (s : Peer) : Type 0 where
  pub waits : (i p : ℕ) → find i s.pending_requests ≡ some p → find p s.promises ≡ some unset
  pub own :
      (i j p : ℕ) → find i s.pending_requests ≡ some p → find j s.pending_requests ≡ some p → i ≡ j
  pub below : (p : ℕ) (x : Shared) → find p s.promises ≡ some x → p < s.next_promise
  pub id_fits : s.next_request_id < 2 ^ 32

pub IsSound-called : (c : NngCall) (s : Peer) → IsSound s → IsSound (called c s)
IsSound-called c s h = record { waits = h.waits; own = h.own; below = h.below; id_fits = h.id_fits }

pub generate_request_id-IsSound : (s : Peer) → IsSound s → IsSound (generate_request_id s).1
unfolding generate_request_id
generate_request_id-IsSound s h = record {
  waits = h.waits;
  own = h.own;
  below = h.below;
  id_fits = omega arith;
}

pub make_promise-IsSound : (s : Peer) → IsSound s → IsSound (make_promise s).1
unfolding make_promise
make_promise-IsSound s h = record {
  waits = λ i p e. ground (arith, find-assign s.next_promise p unset s.promises, h.waits i p);
  own = h.own;
  below = λ p x e. ground (arith, find-assign s.next_promise p unset s.promises, h.below p x);
  id_fits = h.id_fits;
}

-- Destroying the promise of an entry touches no other promise.
pub find-drop_entry :
    (q : Option ℕ) (p : ℕ) (m : Dict ℕ Shared) → q ≢ some p → find p (drop_entry q m) ≡ find p m
unfolding drop_entry
find-drop_entry none p m h = refl
find-drop_entry (some q) p m h = ground (arith, h, find-assign q p broken m)

drop_entry-below :
    (q : Option ℕ) (p : ℕ) (x : Shared) (m : Dict ℕ Shared)
    → find p (drop_entry q m) ≡ some x
    → (y : Shared) × (find p m ≡ some y)
unfolding drop_entry
drop_entry-below none p x m h = (x, h)
drop_entry-below (some q) p x m h = ground (arith, find-assign q p broken m)

-- What is left in the table after an entry is erased was there before.
find_of_erase :
    {V : Type 0} (i j : ℕ) (v : V) (m : Dict ℕ V)
    → find j (erase i m) ≡ some v
    → (i ≢ j) × (find j m ≡ some v)
find_of_erase i j v m e = ground (arith, find-erase i j m)

find_of_assign :
    {V : Type 0} (i j : ℕ) (u v : V) (m : Dict ℕ V)
    → find j (assign i u m) ≡ some v
    → ((i ≡ j) × (u ≡ v)) ⊎ ((i ≢ j) × (find j m ≡ some v))
find_of_assign i j u v m e = ground (arith, find-assign i j u m)

module _ (i : ℕ) (s : Peer) (h : IsSound s) where
  -- Another request's promise survives the end of request `i`.
  other_waits :
      (j p : ℕ)
      → i ≢ j
      → find j s.pending_requests ≡ some p
      → find p (drop_entry (find i s.pending_requests) s.promises) ≡ some unset
  other_waits j p ne e = find-drop_entry _ p _ (λ q. ne (h.own i j p q e)) ∙ h.waits j p e

  drop-below :
      (p : ℕ) (x : Shared)
      → find p (drop_entry (find i s.pending_requests) s.promises) ≡ some x
      → p < s.next_promise
  drop-below p x e = let (y, e') = drop_entry-below _ p x _ e in h.below p y e'

  pub erase_pending-IsSound : IsSound (erase_pending i s)
  unfolding erase_pending
  erase_pending-IsSound = record {
    waits = λ j p e. let (ne, e') = find_of_erase i j p _ e in other_waits j p ne e';
    own = λ j k p e f. h.own j k p (find_of_erase i j p _ e).1 (find_of_erase i k p _ f).1;
    below = drop-below;
    id_fits = h.id_fits;
  }

  module _ (q : ℕ) (fresh : find q s.promises ≡ some unset)
      (free : (j : ℕ) → find j s.pending_requests ≢ some q) where
    assigned :
        (j p : ℕ)
        → find j (assign i q s.pending_requests) ≡ some p
        → ((i ≡ j) × (q ≡ p)) ⊎ ((i ≢ j) × (find j s.pending_requests ≡ some p))
    assigned j p = find_of_assign i j q p s.pending_requests

    pub register_pending-IsSound : IsSound (register_pending i q s)
    unfolding register_pending
    register_pending-IsSound = record {
      waits = λ j p e. elim (assigned j p e) [
        | inl (_, eq) ↦ rw (← eq) (find-drop_entry _ q _ (free i) ∙ fresh)
        | inr (ne, e') ↦ other_waits j p ne e'
      ];
      own =
          λ j k p e f. ground (arith, assigned j p e, assigned k p f, free j, free k, h.own j k p);
      below = drop-below;
      id_fits = h.id_fits;
    }

-- The peer after a response to request `i`, whose promise is `p`.
abbrev pub resolved : ℕ → ℕ → Option (List ℕ) → Peer → Peer
resolved i p r s = record s {
  pending_requests = erase i s.pending_requests;
  promises = assign p (value r) s.promises;
}

-- A response is handed over without an exception: the promise of a pending request has no result yet.
-- The request is then no longer pending, and the promise has the response.
pub resolve_pending-some :
    (i p : ℕ) (r : Option (List ℕ)) (s : Peer)
    → IsSound s
    → find i s.pending_requests ≡ some p
    → resolve_pending i r s ≡ done (resolved i p r s)
unfolding resolve_pending
resolve_pending-some i p r s h e = rw (e, h.waits i p e)

-- A response to no pending request changes nothing.
pub resolve_pending-none :
    (i : ℕ) (r : Option (List ℕ)) (s : Peer)
    → find i s.pending_requests ≡ none
    → resolve_pending i r s ≡ done s
unfolding resolve_pending
resolve_pending-none i r s e = rw e

pub resolved-IsSound :
    (i p : ℕ) (r : Option (List ℕ)) (s : Peer)
    → IsSound s
    → find i s.pending_requests ≡ some p
    → IsSound (resolved i p r s)
resolved-IsSound i p r s h e = record {
  waits = λ j q f.
      let (ne, f') = find_of_erase i j q _ f in
      ground (arith, find-assign p q (value r) s.promises, ne, h.own i j p, h.waits j q f');
  own = λ j k q f g. h.own j k q (find_of_erase i j q _ f).1 (find_of_erase i k q _ g).1;
  below = λ q x f.
      ground
        (arith, find-assign p q (value r) s.promises, h.below q x, h.below p unset (h.waits i p e));
  id_fits = h.id_fits;
}

pub resolve_pending-IsSound :
    (i : ℕ) (r : Option (List ℕ)) (s : Peer)
    → IsSound s
    → (t : Peer) × (resolve_pending i r s ≡ done t) × IsSound t
resolve_pending-IsSound i r s h = elim (Option-cases (find i s.pending_requests)) [
  | inl e ↦ (s, resolve_pending-none i r s e, h)
  | inr (p, e) ↦ (_, resolve_pending-some i p r s h e, resolved-IsSound i p r s h e)
]

pub resolve_pending-EndsIn :
    (i : ℕ) (r : Option (List ℕ)) (s : Peer) → IsSound s → EndsIn IsSound (resolve_pending i r s)
resolve_pending-EndsIn i r s h = let (t, e, k) = resolve_pending-IsSound i r s h in rw e k

-- Handing over a response makes no call of nng, and leaves all but the table and the promises alone.
pub resolve_pending-calls :
    (i : ℕ) (r : Option (List ℕ)) (s t : Peer) → resolve_pending i r s ≡ done t → t.calls ≡ s.calls
unfolding resolve_pending
resolve_pending-calls i r s t e = ground arith
