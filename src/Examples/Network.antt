-- ===== src/Examples/Network.antt =====
-- Two calls at once of the dialling peer, one of whose requests is lost, while the listening one calls too.
use zmq_ipc.Prelude.{
  ℕ, ◌≡◌, ◌≢◌, refl, some, none, List, [], ◌∷◌, arith, inl, inr, nat_eq, bytes_eq,
}
use native.Mathlib.Decide.{ℕ_discrete}
use zmq_ipc.Prelude.Dict.{find, assign, erase}
use zmq_ipc.FlatBuffers.Sample.{sample, sample-laws}
use zmq_ipc.Peer.State.{with_handler, Peer, Shared, Outcome, done}
use zmq_ipc.Peer.Pending.{
  generate_request_id, make_promise, register_pending, resolve_pending, drop_entry,
}
use zmq_ipc.Peer.Receive.{Received, receive}
use zmq_ipc.Peer.Receive.Branches.{receive_of_request, receive_of_response}
use zmq_ipc.Peer.Call.{non_empty}
use zmq_ipc.Dial
use zmq_ipc.Listener
use zmq_ipc.Network.{
  numbered, over, takes, allocates, registers, sends, wakes, expires, erases, Side, dialling,
  listening, World, moves, receives, installs, Run, here, later,
}
use zmq_ipc.Network.Invariant.{IsResult}
use zmq_ipc.Prelude.{length}
use zmq_ipc.Network.Arming.{Run-armed_same}
use zmq_ipc.Network.Peers.{replies, replies-Replies, calls-IsResult}
use zmq_ipc.Examples.Setup.{echo_name, echo, caller, received}
use zmq_ipc.Examples.Worlds.{
  asks_of, asks, methods, begin, begin-IsStart, calls-Fits, other_argument, second_request,
  second_response, second_request-Carries, second_response-Carries,
}

-- the listening peer with a method that is new, and an id taken by a call of its own
abbrev serving : Peer
serving = record (with_handler echo_name echo caller) { next_request_id = 2 }

-- it serves the second request
abbrev served_second :
    (t : Peer) × (receive sample (Listener.reply sample) (received second_request 0) serving
      ≡ done t)
unfolding Listener.reply find assign erase
served_second = (
  _,
  receive_of_request sample (Listener.reply sample) (received second_request 0) serving 2 echo_name
      other_argument echo refl second_request-Carries refl,
)

abbrev sample_replies : Side → Received → ℕ → List ℕ → List ℕ → Peer → Outcome Peer
sample_replies = replies sample

-- A call of the listening side has taken its id, a method is registered there, and both requests of the dialling
-- side are sent.
abbrev both_sent : (v : World) × Run sample sample_replies methods asks begin v
unfolding ℕ_discrete generate_request_id
both_sent = (
  _,
  later
      (later
        (later
          (later
            (later
              (later
                (later
                  (later
                    (later (later here (moves listening 0 (takes (omega arith))))
                      (installs listening echo_name echo (unfold find in refl)))
                    (moves dialling 0 (takes (omega arith))))
                  (moves dialling 1 (takes (omega arith))))
                (moves dialling 0 (allocates 10)))
              (moves dialling 1 (allocates 11)))
            (moves dialling 0 registers))
          (moves dialling 1 registers))
        (moves dialling 0 sends))
      (moves dialling 1 sends),
)

-- the response to the second request is heard
abbrev heard_second :
    (t : Peer) × (receive sample
        (Dial.reply sample)
        (received second_response 0)
        (both_sent.0 dialling).peer
      ≡ done t)
    × (find 1 t.promises ≡ some (Shared.value (some (7 ∷ other_argument))))
    × (find 0 t.promises ≡ some Shared.unset)
unfolding resolve_pending find assign erase register_pending make_promise drop_entry ℕ_discrete
    generate_request_id
heard_second = (
  _,
  receive_of_response sample (Dial.reply sample) (received second_response 0)
      (both_sent.0 dialling).peer 2 echo_name (7 ∷ other_argument) refl second_response-Carries,
  refl,
  refl,
)

-- The second call ends with its response, and the first one, whose request was lost, gives up. The call of the
-- listening side, which has the id of the first one, goes on.
abbrev both_over :
    (v : World) × Run sample sample_replies methods asks begin v
    × ((v dialling).caller 1 ≡ over 2 (some (7 ∷ other_argument)))
    × ((v dialling).caller 0 ≡ over 1 none)
    × ((v listening).caller 0 ≡ numbered 1)
unfolding resolve_pending find assign erase register_pending make_promise drop_entry ℕ_discrete
    generate_request_id non_empty Listener.reply
both_over = (
  _,
  later
      (later
        (later
          (later
            (later both_sent.1 (
              receives listening (received second_request 0) [] (31 ∷ []) refl (λ z. inl refl)
                served_second.1))
            (receives dialling (received second_response 0) [] (31 ∷ []) refl
              (λ z. inr (inr (inr (inl refl)))) heard_second.1))
          (moves dialling 1 (wakes heard_second.2)))
        (moves dialling 0 (expires heard_second.3)))
      (moves dialling 0 erases),
  refl,
  refl,
  refl,
)

calls-IsResult_example :
    ((7 ∷ other_argument) ≢ [])
    × IsResult (methods listening) (asks_of 1) (some (7 ∷ other_argument))
calls-IsResult_example =
    calls-IsResult sample-laws calls-Fits dialling 1 2 (7 ∷ other_argument) begin-IsStart
      both_over.1 both_over.2

Run-armed_same_example : length (both_over.0 listening).armed ≡ 2
Run-armed_same_example =
    Run-armed_same sample-laws sample_replies (replies-Replies sample) calls-Fits begin-IsStart
      both_over.1 listening
