-- ===== src/Examples/Arming.antt =====
-- The workers of a peer that gets malformed messages.
use zmq_ipc.Prelude.{◌≡◌, refl, [], ◌∷◌, arith}
use zmq_ipc.FlatBuffers.Sample.{sample}
use zmq_ipc.Peer.State.{Peer, called}
use zmq_ipc.Peer.Receive.{Received}
use zmq_ipc.Peer.Receive.Branches.{receive_of_refused, receive_of_failed, taken}
use zmq_ipc.Peer.Receive.Arming
use zmq_ipc.Peer.Receive.Arming.{Serving, malformed, Run-deaf}
use zmq_ipc.Nng.{recv_aio}
use zmq_ipc.Dial
use zmq_ipc.Dial.{Dial}
use zmq_ipc.Examples.Setup.{server, received}
use zmq_ipc.Examples.Receiving.{garbage, garbage_refused}

-- Two workers receive; the first gets a malformed message, and the other a receive that fails.
abbrev two_workers : Serving
two_workers = record { peer = server; armed = 30 ∷ 31 ∷ [] }

abbrev bad : Received
bad = received garbage 0

abbrev spurious : Received
spurious = record bad { aio = 31; result = 5 }

abbrev bad_again : Received
bad_again = record bad { aio = 31 }

abbrev at_first : Peer
at_first = taken bad server

abbrev rearmed : Peer
rearmed = called (recv_aio 31) at_first

abbrev none_left : Serving
none_left = record { peer = taken bad_again rearmed; armed = [] }

messages-Run :
    Arming.Run sample (Dial.reply sample) two_workers (bad_again ∷ spurious ∷ bad ∷ []) none_left
messages-Run =
    Arming.later
      (Arming.later
        (Arming.later Arming.here (
          Arming.receives bad [] (31 ∷ []) refl
            (receive_of_refused sample (Dial.reply sample) bad server refl garbage_refused)))
        (Arming.receives spurious [] [] refl
          (receive_of_failed sample (Dial.reply sample) spurious at_first refl)))
      (Arming.receives bad_again [] [] refl
        (receive_of_refused sample (Dial.reply sample) bad_again rearmed refl garbage_refused))

two_malformed : malformed sample (bad_again ∷ spurious ∷ bad ∷ []) ≡ 2
unfolding malformed
two_malformed = rw garbage_refused refl

Run-deaf_example : ¬ Arming.Step sample (Dial.reply sample) none_left spurious two_workers
Run-deaf_example = Run-deaf sample (Dial.reply sample) messages-Run (rw two_malformed (omega arith))
