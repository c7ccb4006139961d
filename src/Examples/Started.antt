-- ===== src/Examples/Started.antt =====
-- The two peers, once they have started with two workers each.
use zmq_ipc.Prelude.{ℕ, ◌+◌, ◌≡◌, refl, false, none, [], ◌∷◌, All}
use zmq_ipc.Nng.{
  pair0_open, dial, listen, aio_alloc, recv_aio, pipe_notify, add_post, rem_post, socket_set_int,
  reconn_min_t, reconn_max_t,
}
use zmq_ipc.Nng.Sent.{sent_by}
use zmq_ipc.Peer.State.{Peer}
use zmq_ipc.Peer.Pending.Laws.{IsSound}
use zmq_ipc.Dial
use zmq_ipc.Listener
use zmq_ipc.Network.{Side, dialling, listening}
use zmq_ipc.Examples.Setup.{caller, caller-IsSound}

-- what nng answers when either peer starts
abbrev dialled : Dial.Starting
dialled = record { opening = 0; connecting = 0; aio = λ i. 30 + i; allocating = λ i. 0 }

abbrev listened : Listener.Starting
listened = record { opening = 0; binding = 0; aio = λ i. 30 + i; allocating = λ i. 0 }

-- the peers once they have started, with two workers each
abbrev pub at_first : Side → Peer
at_first dialling = record caller {
  aio_list = 30 ∷ 31 ∷ [];
  calls =
      recv_aio 31
      ∷ aio_alloc 31 0
      ∷ recv_aio 30
      ∷ aio_alloc 30 0
      ∷ dial (b'x' ∷ []) 0
      ∷ pipe_notify add_post
      ∷ pipe_notify rem_post
      ∷ socket_set_int reconn_min_t 100
      ∷ socket_set_int reconn_max_t 500
      ∷ pair0_open 0
      ∷ [];
}
at_first listening = record caller {
  aio_list = 30 ∷ 31 ∷ [];
  calls =
      recv_aio 31
      ∷ aio_alloc 31 0
      ∷ recv_aio 30
      ∷ aio_alloc 30 0
      ∷ listen (b'x' ∷ []) 0
      ∷ pair0_open 0
      ∷ [];
}

dial_start_run :
    (Dial.start dialled (Dial.construct {A = ℕ} (b'x' ∷ []) 2 false)).1.peer ≡ at_first dialling
unfolding Dial.start Dial.construct Dial.set_up Dial.start_workers Dial.start_worker
dial_start_run = refl

listener_start_run :
    (Listener.start listened (Listener.construct (b'x' ∷ []) 2)).1 ≡ at_first listening
unfolding Listener.start Listener.construct Listener.start_workers
listener_start_run = refl

pub starts_silent : (x : Side) → All (λ c. sent_by c ≡ none) (at_first x).calls
starts_silent dialling =
    (refl, (refl, (refl, (refl, (refl, (refl, (refl, (refl, (refl, (refl, tt))))))))))
starts_silent listening = (refl, (refl, (refl, (refl, (refl, (refl, tt))))))

pub no_methods : (x : Side) → (at_first x).method_map ≡ []
no_methods dialling = refl
no_methods listening = refl

pub at_first-IsSound : (x : Side) → IsSound (at_first x)
at_first-IsSound dialling = record {
  waits = caller-IsSound.waits;
  own = caller-IsSound.own;
  below = caller-IsSound.below;
  id_fits = caller-IsSound.id_fits;
}
at_first-IsSound listening = record {
  waits = caller-IsSound.waits;
  own = caller-IsSound.own;
  below = caller-IsSound.below;
  id_fits = caller-IsSound.id_fits;
}
