-- ===== src/Network/Callers.antt =====
-- What one caller relies on, and that the moves of the others leave it alone.
use zmq_ipc.Prelude.{
  ℕ, ◌≡◌, ◌≢◌, refl, sym, ap, subst, Option, none, some, List, [], inl, inr, arith, nat_eq,
}
use zmq_ipc.Prelude.Dict.{find, find-assign}
use zmq_ipc.FlatBuffers.{FlatBuffers}
use zmq_ipc.Peer.State.{Peer, unset, value}
use zmq_ipc.Peer.Pending.{generate_request_id, make_promise}
use zmq_ipc.Peer.Pending.Laws.{
  IsSound, IsSound-called, generate_request_id-IsSound, make_promise-IsSound,
  register_pending-IsSound, erase_pending-IsSound,
}
use zmq_ipc.Peer.Pending.Tracks.{
  Tracks, Tracks-called, Waiting, make_promise_fresh, start-Tracks, register_pending-Tracks,
  erase_pending-Tracks,
}
use zmq_ipc.Peer.Call.Ends.{non_empty-some}
use zmq_ipc.Network.{
  Ask, Caller, idle, numbered, allocated, registered, waiting, leaving, over, Move, takes,
  allocates, has_no_memory, registers, sends, fails, wakes, expires, erases,
}

-- The id that a caller has taken.
unfoldable pub id_of : Caller → Option ℕ
id_of idle = none
id_of (numbered i) = some i
id_of (allocated i m) = some i
id_of (registered i m p) = some i
id_of (waiting i p) = some i
id_of (leaving i) = some i
id_of (over i r) = some i

pub Move-IsSound :
    {fb : FlatBuffers} {a : Ask} {s : Peer} {c d : Caller} {t : Peer}
    → Move fb a c s d t
    → IsSound s
    → IsSound t
Move-IsSound {s} (takes _) h = generate_request_id-IsSound s h
Move-IsSound (allocates m) h = IsSound-called _ _ h
Move-IsSound (has_no_memory m rv _) h = IsSound-called _ _ h
Move-IsSound {s} (registers {i}) h =
    let (fresh, free) = make_promise_fresh s h in
    unfold make_promise in register_pending-IsSound i _ (make_promise-IsSound s h) _ fresh free
Move-IsSound sends h = IsSound-called _ _ h
Move-IsSound (fails rv _) h = IsSound-called _ _ h
Move-IsSound (wakes _) h = h
Move-IsSound (expires _) h = h
Move-IsSound {s} (erases {i}) h = erase_pending-IsSound i s h

module _ (i p : ℕ) (P : Option (List ℕ) → Type 0) where
  generate_request_id-Tracks : (s : Peer) → Tracks i p P s → Tracks i p P (generate_request_id s).1
  unfolding generate_request_id
  generate_request_id-Tracks s h = record {
    sound = generate_request_id-IsSound s h.sound;
    waiting = h.waiting;
  }

  make_promise-Waiting : (s : Peer) → IsSound s → Waiting i p P s → Waiting i p P (make_promise s).1
  unfolding make_promise
  make_promise-Waiting s h (inl w) = inl w
  make_promise-Waiting s h (inr (r, good, gone, v)) = inr (
    r,
    good,
    gone,
    ground (arith, find-assign s.next_promise p unset s.promises, h.below p (value r) v),
  )

  make_promise-Tracks : (s : Peer) → Tracks i p P s → Tracks i p P (make_promise s).1
  make_promise-Tracks s h = record {
    sound = make_promise-IsSound s h.sound;
    waiting = make_promise-Waiting s h.sound h.waiting;
  }

  -- A move of a caller with another id.
  pub Move-Tracks :
      {fb : FlatBuffers} {a : Ask} {s : Peer} {c d : Caller} {t : Peer}
      → Move fb a c s d t
      → id_of c ≢ some i
      → Tracks i p P s
      → Tracks i p P t
  unfolding id_of
  Move-Tracks {s} (takes _) ne h = generate_request_id-Tracks s h
  Move-Tracks (allocates m) ne h = Tracks-called i p P _ _ h
  Move-Tracks (has_no_memory m rv _) ne h = Tracks-called i p P _ _ h
  Move-Tracks {s} (registers {i = j}) ne h =
      let (fresh, free) = make_promise_fresh s h.sound in
      register_pending-Tracks i p P j _ _ (λ e. ne (ap some (sym e))) (unfold make_promise in fresh)
        (unfold make_promise in free) (make_promise-Tracks s h)
  Move-Tracks sends ne h = Tracks-called i p P _ _ h
  Move-Tracks (fails rv _) ne h = Tracks-called i p P _ _ h
  Move-Tracks (wakes _) ne h = h
  Move-Tracks (expires _) ne h = h
  Move-Tracks {s} (erases {i = j}) ne h =
      erase_pending-Tracks i p P j s (λ e. ne (ap some (sym e))) h

module _ (P : Option (List ℕ) → Type 0) where
  -- A caller with a request on its way is tracked; one that is over gives bytes only of a result with `P`.
  unfoldable pub Ready : Caller → Peer → Type 0
  Ready idle s = Unit
  Ready (numbered i) s = Unit
  Ready (allocated i m) s = Unit
  Ready (registered i m p) s = Tracks i p P s
  Ready (waiting i p) s = Tracks i p P s
  Ready (leaving i) s = Unit
  Ready (over i r) s = (bytes : List ℕ) → r ≡ some bytes → (bytes ≢ []) × P (some bytes)

  -- What keeps the request of a caller tracked keeps the caller ready.
  pub Ready-keeps :
      (c : Caller) (s t : Peer)
      → ((i p : ℕ) → id_of c ≡ some i → Tracks i p P s → Tracks i p P t)
      → Ready c s
      → Ready c t
  unfolding Ready id_of
  Ready-keeps idle s t k h = h
  Ready-keeps (numbered i) s t k h = h
  Ready-keeps (allocated i m) s t k h = h
  Ready-keeps (registered i m p) s t k h = k i p refl h
  Ready-keeps (waiting i p) s t k h = k i p refl h
  Ready-keeps (leaving i) s t k h = h
  Ready-keeps (over i r) s t k h = h

  woken :
      (i p : ℕ) (r : Option (List ℕ)) (s : Peer)
      → Tracks i p P s
      → find p s.promises ≡ some (value r)
      → P r
  woken i p r s h e = go h.waiting
    where
      go : Waiting i p P s → P r
      go (inl w) = cc (h.sound.waits i p w, e)
      go (inr (x, good, gone, v)) = let same : x ≡ r = cc in subst P same good

  -- The caller that moves.
  pub Move-Ready :
      {fb : FlatBuffers} {a : Ask} {s : Peer} {c d : Caller} {t : Peer}
      → Move fb a c s d t
      → IsSound s
      → Ready c s
      → Ready d t
  unfolding Ready
  Move-Ready (takes _) k h = tt
  Move-Ready (allocates m) k h = tt
  Move-Ready (has_no_memory m rv _) k h = λ bytes q. cc
  Move-Ready {s} (registers {i}) k h = unfold make_promise in start-Tracks i P s k
  Move-Ready (sends {i} {p}) k h = Tracks-called i p P _ _ h
  Move-Ready (fails rv _) k h = tt
  Move-Ready (wakes {i} {p} {r} e) k h = λ bytes q. non_empty-some P r bytes (woken i p r _ h e) q
  Move-Ready (expires _) k h = tt
  Move-Ready erases k h = λ bytes q. cc
