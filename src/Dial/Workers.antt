-- ===== src/Dial/Workers.antt =====
-- The workers of the dialling peer, from start to stop.
use zmq_ipc.Prelude.{
  ℕ, zero, suc, ◌+◌, ◌≡◌, refl, sym, Bool, true, false, Bool-cases, inl, inr, some, List, [], ◌∷◌,
  ◌++◌, nat_beq, arith, if◌then◌else◌,
}
use mathlib.Core.List.{append-nil, append_assoc}
use zmq_ipc.Nng.{pair0_open, dial}
use zmq_ipc.Nng.Aios.{live, count}
use zmq_ipc.Peer.Workers.{Listed, with_worker-Listed, refused-Listed, live-stopped}
use zmq_ipc.Peer.State.{Peer, called}
use zmq_ipc.Dial.{Dial, Starting, start_worker, start_workers, stop_workers, set_up, start, stop}

-- The aios that `n` workers from number `i` on are given.
unfoldable pub allocated : Starting → ℕ → ℕ → List ℕ
allocated e zero i = []
allocated e (suc n) i =
    let rest = allocated e n (i + 1) in if nat_beq (e.allocating i) 0 then e.aio i ∷ rest else rest

start_workers-aio_list :
    (e : Starting) (n i : ℕ) (s : Peer)
    → (start_workers e n i s).aio_list ≡ s.aio_list ++ allocated e n i
unfolding start_workers allocated
start_workers-aio_list e zero i s = sym (append-nil _)
start_workers-aio_list e (suc n) i s = ground (
  arith,
  start_workers-aio_list e n (i + 1) (start_worker e i s),
  append_assoc s.aio_list (e.aio i ∷ []) (allocated e n (i + 1)),
)

module _ (a : ℕ) where
  start_worker-Listed :
      (e : Starting) (i n : ℕ) (s : Peer) → Listed a n s → Listed a n (start_worker e i s)
  unfolding start_worker
  start_worker-Listed e i n s h = elim (Bool-cases (nat_beq (e.allocating i) 0)) [
    | inl q ↦ rw q (with_worker-Listed a (e.aio i) (e.allocating i) n s q h)
    | inr q ↦ rw q (refused-Listed a (e.aio i) (e.allocating i) n s q h)
  ]

  start_workers-Listed :
      (e : Starting) (k i n : ℕ) (s : Peer) → Listed a n s → Listed a n (start_workers e k i s)
  unfolding start_workers
  start_workers-Listed e zero i n s h = h
  start_workers-Listed e (suc k) i n s h =
      start_workers-Listed e k (i + 1) n (start_worker e i s) (start_worker-Listed e i n s h)

  pub live-stop_workers :
      (l : List ℕ) (m : ℕ) (s : Peer)
      → live a s.calls ≡ some (m + count a l)
      → live a (stop_workers l s).calls ≡ some m
  unfolding stop_workers count
  live-stop_workers [] m s h = ground arith
  live-stop_workers (b ∷ l) m s h = live-stop_workers l m _ (live-stopped a b l m s h)

-- the two outcomes of `start`
abbrev Started {ℓ} : {A : Type ℓ} → Starting → Dial A → Bool × Dial A → Type 0
Started e d (true, t) =
    (t.dial_running ≡ true)
    × (t.peer.aio_list ≡ d.peer.aio_list ++ allocated e d.peer.num_workers 0)
Started e d (false, t) = (t.dial_running ≡ d.dial_running) × (t.peer.aio_list ≡ d.peer.aio_list)

-- What `start` returns and leaves: after true, the peer runs and has the aio of each worker for which one
-- was allocated; after false, both are as they were.
start-Started {ℓ} : {A : Type ℓ} (e : Starting) (d : Dial A) → Started e d (start e d)
unfolding start set_up
start-Started e d = elim (Bool-cases (nat_beq e.opening 0)) [
  | inl q ↦ rw q (elim (Bool-cases (nat_beq e.connecting 0)) [
    | inl r ↦ rw r (refl, start_workers-aio_list e d.peer.num_workers 0 _)
    | inr r ↦ rw r (refl, refl)
  ])
  | inr q ↦ rw q (refl, refl)
]

-- the peer when `start` has dialled
abbrev pub connected {ℓ} : {A : Type ℓ} → Starting → Dial A → Peer
connected e d =
    called (dial d.peer.address e.connecting) (set_up (called (pair0_open e.opening) d.peer))

connected-Listed {ℓ} :
    {A : Type ℓ} (a n : ℕ) (e : Starting) (d : Dial A)
    → Listed a n d.peer
    → Listed a n (connected e d)
unfolding live set_up
connected-Listed a n e d h = rw h refl

pub start-Listed {ℓ} :
    {A : Type ℓ} (a n : ℕ) (e : Starting) (d : Dial A)
    → Listed a n d.peer
    → Listed a n (start e d).1.peer
unfolding start set_up live
start-Listed a n e d h = elim (Bool-cases (nat_beq e.opening 0)) [
  | inl q ↦ rw q (elim (Bool-cases (nat_beq e.connecting 0)) [
    | inl r ↦ rw r (
        start_workers-Listed a e d.peer.num_workers 0 n (connected e d)
          (connected-Listed a n e d h))
    | inr r ↦ rw (r, connected-Listed a n e d h) refl
  ])
  | inr q ↦ rw (q, h) refl
]

-- Whatever fails when a peer that has no worker starts, stopping it ends with every aio freed, each time after it was stopped,
-- as often as it was allocated, none used after it is freed, and no worker left.
start-stop_aios {ℓ} :
    {A : Type ℓ} (a n : ℕ) (e : Starting) (d : Dial A)
    → live a d.peer.calls ≡ some n
    → d.peer.aio_list ≡ []
    → (live a (stop (start e d).1).peer.calls ≡ some n)
      × ((stop (start e d).1).peer.aio_list ≡ [])
      × ((stop (start e d).1).dial_running ≡ false)
unfolding stop live count
start-stop_aios a n e d h none_yet =
    let listed : Listed a n d.peer = ground arith in
    (
      rw (
          live-stop_workers a (start e d).1.peer.aio_list n (start e d).1.peer
            (start-Listed a n e d listed)),
      refl,
      refl,
    )
