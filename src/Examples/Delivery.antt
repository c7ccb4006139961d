-- ===== src/Examples/Delivery.antt =====
-- A stream of two messages, the first of which is lost.
use zmq_ipc.Prelude.{◌≡◌, refl, [], ◌∷◌, arith}
use zmq_ipc.Push
use zmq_ipc.Push.Socket.{inits as opens, sends, use_once}
use zmq_ipc.Pull.{Opening, construct, init, start_recv_loop, test_running, on_recv}
use zmq_ipc.Pull.Steps.{inits, starts, tests}
use zmq_ipc.Stream.{Stream, uses, loses, turns, receives, Run, here, later, sent}
use zmq_ipc.Stream.Delivery.{begin, Delivers, Run-Delivers}

abbrev dialled : Push.Opening
dialled = record { opening = 0; new_id = 4; connecting = 0 }

abbrev bound : Opening
bound = record { opening = 0; new_id = 5; binding = 0 }

abbrev second_only :
    (w : Stream) × Run begin w
    × (w.pull.delivered ≡ (2 ∷ []) ∷ [])
    × (sent w.push.calls ≡ (2 ∷ []) ∷ (1 ∷ []) ∷ [])
unfolding construct init start_recv_loop test_running on_recv Push.construct Push.init
    Push.send_data use_once sent
second_only = (
  _,
  later
      (later
        (later
          (later
            (later
              (later
                (later
                  (later (later here (turns tt (inits bound [] refl refl (λ e. omega (arith, e)))))
                    (turns tt (starts refl)))
                  (turns tt (tests refl)))
                (uses (opens dialled [])))
              (uses (sends 0 (1 ∷ []))))
            (uses (sends 0 (2 ∷ []))))
          (uses (sends 8 (3 ∷ []))))
        (loses ((2 ∷ []) ∷ []) [] (1 ∷ []) refl))
      (receives [] (2 ∷ []) refl refl),
  refl,
  refl,
)

Run-Delivers_example : Delivers second_only.0
Run-Delivers_example = Run-Delivers second_only.1
