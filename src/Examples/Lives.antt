-- ===== src/Examples/Lives.antt =====
-- Peers from their constructors to their destructors, at concrete runs.
use zmq_ipc.Prelude.{ℕ, ◌+◌, ◌^◌, ◌<◌, ◌≡◌, ap, refl, false, some, none, [], ◌∷◌, arith}
use zmq_ipc.FlatBuffers.Sample.{sample}
use zmq_ipc.Nng.Aios.{live, count}
use zmq_ipc.Nng.Sockets.{open_sockets}
use zmq_ipc.Rpc.{verify}
use zmq_ipc.Peer.Pending.Laws.{IsSound}
use zmq_ipc.Peer.Receive.{Received}
use zmq_ipc.Peer.Receive.Branches.{receive_of_refused, taken}
use zmq_ipc.Life
use zmq_ipc.Life.{at_rest}
use zmq_ipc.Peer.Pending.{generate_request_id}
use zmq_ipc.Network.{Ask, takes}
use zmq_ipc.Dial
use zmq_ipc.Dial.{Dial}
use zmq_ipc.Dial.Lifetime.{dial_class, dial_life-ends}
use zmq_ipc.Dial.Sockets.{Careful, dial_life-closes}
use zmq_ipc.Listener
use zmq_ipc.Listener.Lifetime.{listener_class, listener_life-ends}
use zmq_ipc.Examples.Setup.{echo_name, argument, received}
use zmq_ipc.Examples.Receiving.{garbage, garbage_refused, blank}
use zmq_ipc.Examples.Workers.{dialling, listening}

-- A dialling peer that starts, with two of its three workers, gives an id to a call, is stopped, gets a
-- malformed message between the rounds of the loop, and then fails to dial.
abbrev made : Dial ℕ
made = Dial.construct echo_name 3 false

abbrev started : Dial ℕ
started = (Dial.start dialling made).1

abbrev refused : Dial.Starting
refused = record dialling { connecting = 6 }

abbrev to_dialler : Received
to_dialler = record (received garbage 0) { aio = 42 }

abbrev with_id : Dial ℕ
with_id = record started { peer = (generate_request_id started.peer).1 }

abbrev half_stopped : Dial ℕ
half_stopped = record with_id { peer = Dial.stop_workers (40 ∷ []) with_id.peer }

abbrev with_message : Dial ℕ
with_message = record half_stopped { peer = taken to_dialler half_stopped.peer }

abbrev all_stopped : Dial ℕ
all_stopped = record with_message { peer = Dial.stop_workers (42 ∷ []) with_message.peer }

abbrev tried_again : Dial ℕ
tried_again = (Dial.start refused (Dial.end_stop all_stopped)).1

abbrev asked : Ask
asked = record { method_name = echo_name; req_buf = argument }

two_aios : with_id.peer.aio_list ≡ 40 ∷ 42 ∷ []
unfolding generate_request_id Dial.start Dial.construct
two_aios = refl

still_receives : 0 < count 42 (42 ∷ [])
unfolding count
still_receives = omega arith

may_take : started.peer.next_request_id + 1 < 2 ^ 32
unfolding Dial.start Dial.construct
may_take = omega arith

abbrev dial_run : Life.Run (dial_class sample ℕ) (at_rest made) (at_rest tried_again)
dial_run =
    Life.later
      (Life.later
        (Life.later
          (Life.later
            (Life.later
              (Life.later
                (Life.later (Life.later Life.here (Life.starts dialling refl))
                  (Life.moves asked (takes may_take)))
                (Life.begins_stop refl))
              (Life.stops_worker 40 (42 ∷ []) (ap some two_aios)))
            (Life.receives to_dialler still_receives (
              receive_of_refused sample (Dial.reply sample) to_dialler half_stopped.peer refl
                garbage_refused)))
          (Life.stops_worker 42 [] refl))
        (Life.ends_stop refl))
      (Life.starts refused refl)

dial_life-ends_example :
    IsSound tried_again.peer × ((a : ℕ) → live a (Dial.destroy tried_again).peer.calls ≡ some 0)
dial_life-ends_example = dial_life-ends echo_name 3 false dial_run

dial-Careful : Careful dial_run
unfolding Dial.start Dial.construct Dial.stop_workers generate_request_id
dial-Careful = (((tt, refl), refl), refl)

dial_life-closes_example : open_sockets (Dial.stop tried_again).peer.calls ≡ none
unfolding Dial.start Dial.construct Dial.stop_workers generate_request_id
dial_life-closes_example = dial_life-closes echo_name 3 false dial_run dial-Careful

-- A listening peer that gets one of its three workers, registers a method, gets a malformed message, and
-- is stopped and started again.
abbrev new_listener : Listener.Listener
new_listener = Listener.construct echo_name 3

abbrev bound : Listener.Listener
bound = (Listener.start listening new_listener).1

abbrev to_listener : Received
to_listener = record (received garbage 0) { aio = 40 }

abbrev offers_blank : Listener.Listener
offers_blank = Listener.register_method sample (verify sample) echo_name blank bound

abbrev hears : Listener.Listener
hears = taken to_listener offers_blank

abbrev emptied : Listener.Listener
emptied = Listener.stop_workers (40 ∷ []) hears

abbrev again : Listener.Listener
again = (Listener.start listening (Listener.end_stop emptied)).1

one_aio : hears.aio_list ≡ 40 ∷ []
unfolding Listener.start Listener.construct Listener.register_method
one_aio = refl

has_listener_worker : 0 < count 40 offers_blank.aio_list
unfolding count Listener.start Listener.construct Listener.register_method
has_listener_worker = omega arith

listener-Run : Life.Run (listener_class sample) (at_rest new_listener) (at_rest again)
listener-Run =
    Life.later
      (Life.later
        (Life.later
          (Life.later
            (Life.later
              (Life.later (Life.later Life.here (Life.starts listening refl))
                (Life.Step.registers (verify sample) echo_name blank))
              (Life.receives to_listener has_listener_worker (
                receive_of_refused sample (Listener.reply sample) to_listener offers_blank refl
                  garbage_refused)))
            (Life.begins_stop refl))
          (Life.stops_worker 40 [] (ap some one_aio)))
        (Life.ends_stop refl))
      (Life.starts listening refl)

listener_life-ends_example :
    IsSound again × ((a : ℕ) → live a (Listener.destroy again).calls ≡ some 0)
listener_life-ends_example = listener_life-ends echo_name 3 listener-Run

-- A start that fails for want of an aio, and one more.
abbrev retried : Listener.Listener
retried = (Listener.start listening bound).1

abbrev retry_run : Life.Run (listener_class sample) (at_rest new_listener) (at_rest retried)
retry_run =
    Life.later (Life.later Life.here (Life.starts listening refl)) (Life.starts listening refl)
