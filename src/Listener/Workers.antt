-- ===== src/Listener/Workers.antt =====
-- The workers of the listening peer, from start to stop.
use zmq_ipc.Prelude.{
  ℕ, zero, suc, ◌+◌, ◌≡◌, refl, Bool-cases, inl, inr, some, List, [], ◌∷◌, nat_beq, arith,
}
use zmq_ipc.Nng.{pair0_open, listen, close}
use zmq_ipc.Nng.Aios.{live, after_call, count}
use zmq_ipc.Peer.Workers.{
  Listed, with_worker, with_worker-Listed, refused-Listed, quiet-Listed, live-stopped,
}
use zmq_ipc.Peer.State.{Peer, called}
use zmq_ipc.Listener.{Starting, start_workers, stop_workers, start, stop}

-- the peer when its socket is open, and when it listens
abbrev opened : Starting → Peer → Peer
opened e s = called (pair0_open e.opening) s

abbrev pub bound : Starting → Peer → Peer
bound e s = called (listen s.address e.binding) (opened e s)

module _ (a : ℕ) where
  start_workers-Listed :
      (e : Starting) (k i n : ℕ) (s : Peer) → Listed a n s → Listed a n (start_workers e k i s).1
  unfolding start_workers
  start_workers-Listed e zero i n s h = h
  start_workers-Listed e (suc k) i n s h = elim (Bool-cases (nat_beq (e.allocating i) 0)) [
    | inl q ↦ rw q (
        start_workers-Listed e k (i + 1) n (with_worker (e.aio i) (e.allocating i) s)
          (with_worker-Listed a (e.aio i) (e.allocating i) n s q h))
    | inr q ↦ rw q (refused-Listed a (e.aio i) (e.allocating i) n s q h)
  ]

  pub start-Listed : (e : Starting) (n : ℕ) (s : Peer) → Listed a n s → Listed a n (start e s).1
  unfolding start
  start-Listed e n s h =
      let one = quiet-Listed a (pair0_open e.opening) n s (λ st m. unfold after_call in refl) h in
      let two =
        quiet-Listed a (listen s.address e.binding) n (opened e s)
          (λ st m. unfold after_call in refl) one in
      elim (Bool-cases (nat_beq e.opening 0)) [
        | inl q ↦ rw q (elim (Bool-cases (nat_beq e.binding 0)) [
          | inl r ↦ rw r (start_workers-Listed e s.num_workers 0 n (bound e s) two)
          | inr r ↦
              rw r (quiet-Listed a close n (bound e s) (λ st m. unfold after_call in refl) two)
        ])
        | inr q ↦ rw q one
      ]

  pub live-stop_workers :
      (l : List ℕ) (m : ℕ) (s : Peer)
      → live a s.calls ≡ some (m + count a l)
      → live a (stop_workers l s).calls ≡ some m
  unfolding stop_workers count
  live-stop_workers [] m s h = ground arith
  live-stop_workers (b ∷ l) m s h = live-stop_workers l m _ (live-stopped a b l m s h)

-- Whatever fails when a peer that has no worker starts, be it the aio of a worker in the middle, stopping
-- it ends with every aio freed after it was stopped, as often as it was allocated, none used after it is
-- freed, and no worker left.
start-stop_listener :
    (a n : ℕ) (e : Starting) (s : Peer)
    → live a s.calls ≡ some n
    → s.aio_list ≡ []
    → (live a (stop (start e s).1).calls ≡ some n) × ((stop (start e s).1).aio_list ≡ [])
unfolding stop live count
start-stop_listener a n e s h none_yet =
    let listed : Listed a n s = ground arith in
    (
      rw (live-stop_workers a (start e s).1.aio_list n (start e s).1 (start-Listed a e n s listed)),
      refl,
    )
