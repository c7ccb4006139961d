-- ===== src/Examples/Streams.antt =====
-- The pusher and the puller, at concrete runs.
use zmq_ipc.Prelude.{◌≡◌, refl, true, false, none, some, List, [], ◌∷◌, arith}
use zmq_ipc.Nng.{pull0_open, socket_set_int, recv_buf, listen}
use zmq_ipc.Nng.Sockets.{open_sockets}
use zmq_ipc.Push
use zmq_ipc.Push.Socket.{
  Use, inits as opens, sends, closes as shuts, use_all, use_once, use_all-closed, init-init_leak,
}
use zmq_ipc.Prelude.{◌⊎◌}
use zmq_ipc.Pull.{
  Pull, Opening, absent, receiving, joining, construct, init, start_recv_loop, test_running,
  close_begin, joinable,
}
use zmq_ipc.Pull.Steps.{
  Step, opened, started, tested, closing, received, joined, inits, starts, tests, receives, closes,
  Run, here, later,
}
use zmq_ipc.Pull.Lifecycle.{Settled, Run-Settled}
use zmq_ipc.Pull.Closing.{has_received, close_blocked, close-finishes}

abbrev refused : Push.Opening
refused = record { opening = 0; new_id = 3; connecting = 6 }

abbrev accepted : Push.Opening
accepted = record { opening = 0; new_id = 4; connecting = 0 }

-- a dial that fails, a close, a dial that succeeds, and two sends
abbrev uses : List Use
uses = opens refused [] ∷ shuts ∷ opens accepted [] ∷ sends 0 (1 ∷ []) ∷ sends 8 [] ∷ []

use_all-closed_example : open_sockets (Push.close_push (use_all uses Push.construct)).calls ≡ some 0
unfolding use_once Push.construct Push.init Push.send_data Push.close_push
use_all-closed_example =
    use_all-closed uses
      ((refl, λ e. omega (arith, e)), (tt, ((refl, λ e. omega (arith, e)), (tt, (tt, tt)))))

init-init_leak_example :
    ((Push.init refused [] Push.construct).0 ≡ false)
    × (open_sockets
          (Push.close_push (Push.init accepted [] (Push.init refused [] Push.construct).1).1).calls
        ≡ some 1)
init-init_leak_example =
    init-init_leak refused accepted [] refl (λ e. omega (arith, e)) (λ e. omega (arith, e)) refl
      (λ e. omega (arith, e))

abbrev bound : Opening
bound = record { opening = 0; new_id = 5; binding = 0 }

-- a puller whose thread is in nng_recv, before and after `close` begins
abbrev in_recv : Pull
in_recv = record {
  sock_id = 5;
  running = true;
  worker = receiving;
  caller = zmq_ipc.Pull.idle;
  delivered = [];
  freed = 0;
  calls = listen [] 0 ∷ socket_set_int recv_buf 120 ∷ pull0_open 0 ∷ [];
}

abbrev blocked : Pull
blocked = record in_recv { running = false; caller = joining }

begins_closing : Step in_recv closing blocked
unfolding close_begin joinable
begins_closing = closes refl

Run-blocked : Run construct (closing ∷ tested ∷ started ∷ opened ∷ []) blocked
unfolding construct init start_recv_loop test_running close_begin joinable
Run-blocked =
    later
      (later (later (later here (inits bound [] refl refl (λ e. omega (arith, e)))) (starts refl))
        (tests refl))
      (closes refl)

Run-Settled_example : Settled blocked
Run-Settled_example = Run-Settled Run-blocked

-- A receive fails, and the loop ends: `close` still waits.
abbrev loop_ended : Pull
loop_ended = record blocked { worker = zmq_ipc.Pull.ended }

ends_loop : Run blocked (tested ∷ received 7 none ∷ []) loop_ended
unfolding zmq_ipc.Pull.on_recv test_running
ends_loop = later (later here (receives 7 none refl)) (tests refl)

close_blocked_example :
    (loop_ended.caller ≡ joining)
    × (loop_ended.sock_id ≡ in_recv.sock_id)
    × (loop_ended.calls ≡ in_recv.calls)
    × ((loop_ended.worker ≡ receiving) ⊎ (has_received (tested ∷ received 7 none ∷ []) ≡ true))
close_blocked_example =
    close_blocked {p = in_recv} refl refl begins_closing ends_loop (refl, (refl, tt))

close-finishes_example :
    (q : Pull) × Run construct
      (joined ∷ tested ∷ received 0 (some (9 ∷ [])) ∷ closing ∷ tested ∷ started ∷ opened ∷ [])
      q
    × (q.worker ≡ absent)
    × (q.sock_id ≡ 0)
    × (open_sockets q.calls ≡ some 0)
close-finishes_example = close-finishes 0 (some (9 ∷ [])) Run-blocked refl refl
