-- ===== src/Peer/Workers.antt =====
-- The aios of a peer: those that it has allocated are in its list.
use zmq_ipc.Prelude.{Bool, ℕ, ◌+◌, ◌<◌, ◌≡◌, true, false, some, List, [], ◌∷◌, ◌++◌, nat_beq, arith}
use zmq_ipc.Nng.{NngCall, aio_alloc, aio_stop, aio_free, recv_aio}
use zmq_ipc.Nng.Aios.{live, is_stopped, after_call, count, count-append}
use zmq_ipc.Peer.State.{Peer, called}

-- Beside `n` that others have, the aios that are allocated are those of the list `l`.
abbrev pub Tallies : ℕ → ℕ → List ℕ → Peer → Type 0
Tallies a n l s = live a s.calls ≡ some (n + count a l)

-- They are those of the peer's own list.
abbrev pub Listed : ℕ → ℕ → Peer → Type 0
Listed a n s = Tallies a n s.aio_list s

-- the peer with one more aio, on which it receives
abbrev pub with_worker : ℕ → ℕ → Peer → Peer
with_worker b rv s =
    called (recv_aio b)
      (record s { aio_list = s.aio_list ++ (b ∷ []); calls = aio_alloc b rv ∷ s.calls })

module _ (a : ℕ) where
  pub with_worker-Listed :
      (b rv n : ℕ) (s : Peer) → nat_beq rv 0 ≡ true → Listed a n s → Listed a n (with_worker b rv s)
  unfolding live count
  with_worker-Listed b rv n s q h = ground (arith, count-append a s.aio_list (b ∷ []))

  pub refused-Listed :
      (b rv n : ℕ) (s : Peer)
      → nat_beq rv 0 ≡ false
      → Listed a n s
      → Listed a n (called (aio_alloc b rv) s)
  unfolding live
  refused-Listed b rv n s q h = ground arith

  -- A call that is not about aios.
  pub quiet-Tallies :
      (c : NngCall) (n : ℕ) (l : List ℕ) (s : Peer)
      → ((st : Bool) (m : ℕ) → after_call a st c m ≡ some m)
      → Tallies a n l s
      → Tallies a n l (called c s)
  unfolding live
  quiet-Tallies c n l s idle h = rw (h, idle)

  pub quiet-Listed :
      (c : NngCall) (n : ℕ) (s : Peer)
      → ((st : Bool) (m : ℕ) → after_call a st c m ≡ some m)
      → Listed a n s
      → Listed a n (called c s)
  quiet-Listed c n s = quiet-Tallies c n s.aio_list s

  -- A receive is started on an aio of the list.
  pub recv_aio-Tallies :
      (b n : ℕ) (l : List ℕ) (s : Peer)
      → 0 < count b l
      → Tallies a n l s
      → Tallies a n l (called (recv_aio b) s)
  unfolding live
  recv_aio-Tallies b n l s has h = ground arith

  pub live-stopped :
      (b : ℕ) (l : List ℕ) (m : ℕ) (s : Peer)
      → Tallies a m (b ∷ l) s
      → Tallies a m l (called (aio_free b) (called (aio_stop b) s))
  unfolding live count is_stopped
  live-stopped b l m s h = ground arith
