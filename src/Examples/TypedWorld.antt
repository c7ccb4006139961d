-- ===== src/Examples/TypedWorld.antt =====
-- A typed call between two peers that share a world with others.
use zmq_ipc.Prelude.{
  ℕ, ◌<◌, ◌≡◌, refl, sym, ap, subst, some, List, [], arith, inl, inr, nat_eq, bytes_eq, length,
}
use native.Mathlib.Decide.{ℕ_discrete}
use zmq_ipc.Prelude.Dict.{find, assign, erase}
use zmq_ipc.FlatBuffers.{max_size}
use zmq_ipc.FlatBuffers.Sample.{sample, sample-laws, encode}
use zmq_ipc.Rpc.{request, response}
use zmq_ipc.Rpc.RoundTrip.{Carries}
use zmq_ipc.Nng.Sent.{silent_calls}
use zmq_ipc.Prelude.{◌∷◌}
use zmq_ipc.Examples.Started.{at_first, starts_silent, no_methods, at_first-IsSound}
use zmq_ipc.Peer.State.{with_handler, Peer, Shared, done}
use zmq_ipc.Peer.Messages.{
  request_buffer, response_buffer, request_buffer-Carries, response_buffer-Carries,
}
use zmq_ipc.Peer.Pending.{
  generate_request_id, make_promise, register_pending, resolve_pending, drop_entry,
}
use zmq_ipc.Peer.Receive.{receive}
use zmq_ipc.Peer.Receive.Branches.{receive_of_request, receive_of_response}
use zmq_ipc.Peer.Call.{non_empty}
use zmq_ipc.Params.Reads.{Reads}
use zmq_ipc.Params.Kinds.{int32, response_table, request_of, response_of}
use zmq_ipc.Dial
use zmq_ipc.Dial.Typed.{listener_wrapper}
use zmq_ipc.Listener
use zmq_ipc.Network.{
  Ask, Offers, idle, over, takes, allocates, registers, sends, wakes, Side, dialling, listening,
  other, World, moves, receives, installs, Run, here, later,
}
use zmq_ipc.Network.Succeeding.{idle_calls-Answers}
use zmq_ipc.Network.Answered.{Answers, calls-Answers}
use zmq_ipc.Network.Invariant.{Fits}
use zmq_ipc.Network.Invariant.Reached.{IsStart}
use zmq_ipc.Network.Peers.{replies}
use zmq_ipc.Network.Typed.{wrapper_of, wrapper_of-response_of, typed_calls-Reads}
use zmq_ipc.Examples.Setup.{echo_name, received}
use zmq_ipc.Examples.Typed.{next, small_asked, small_answered, small_request, small_response}

abbrev asked : List ℕ
asked = request_of sample int32 7

-- every thread of both sides asks for the number after 7
abbrev asks : Side → ℕ → Ask
asks x k = record { method_name = echo_name; req_buf = asked }

-- both sides register nothing but that method
abbrev methods : Side → Offers
methods x name h = (name ≡ echo_name) × (h ≡ wrapper_of sample x int32 int32 next)

abbrev begin : World
begin x = record { caller = λ k. idle; peer = at_first x; armed = 30 ∷ 31 ∷ [] }

begin-IsStart : IsStart methods begin
unfolding find
begin-IsStart x = record {
  all_idle = λ k. refl;
  sound = at_first-IsSound x;
  silent = λ body. silent_calls body (at_first x).calls (starts_silent x);
  serves = λ name g f. cc (rw (no_methods x) at f);
}

workers : (x : Side) → 0 < length (begin x).armed
workers x = omega arith

same : (x : Side) → wrapper_of sample x int32 int32 next asked [] ≡ response_of sample int32 8
same x = wrapper_of-response_of sample-laws x int32 int32 next 7 (omega arith) small_asked

small_told :
    (x : Side) (i : ℕ)
    → length (response_buffer sample i echo_name (wrapper_of sample x int32 int32 next asked []))
      < max_size
small_told x i =
    subst (λ l. length (response_buffer sample i echo_name l) < max_size) (sym (same x))
      (small_response i)

calls-Fits : (x : Side) → Fits sample (methods (other x)) (asks x)
calls-Fits x = record {
  asked = λ k i lt. small_request i;
  told = λ k i h lt offered.
      subst (λ g. length (response_buffer sample i echo_name (g asked [])) < max_size)
        (sym offered.1) (small_told (other x) i);
}

-- what the listening peer answers
abbrev told : List ℕ
told = listener_wrapper sample int32 int32 next asked []

asked-Carries : Carries sample (request_buffer sample 1 echo_name asked) request 1 echo_name asked
asked-Carries = request_buffer-Carries sample-laws 1 echo_name asked (omega arith) (small_request 1)

told-Carries : Carries sample (response_buffer sample 1 echo_name told) response 1 echo_name told
told-Carries =
    response_buffer-Carries sample-laws 1 echo_name told (omega arith) (small_told listening 1)

told_given : non_empty (some told) ≡ some told
told_given =
    subst (λ l. non_empty (some l) ≡ some l) (sym (same listening))
      (unfold encode non_empty in refl)

abbrev serving : Peer
serving = with_handler echo_name (listener_wrapper sample int32 int32 next) (at_first listening)

abbrev served :
    (t : Peer) × (receive sample
        (Listener.reply sample)
        (received (request_buffer sample 1 echo_name asked) 0)
        serving
      ≡ done t)
unfolding Listener.reply find assign erase
served = (
  _,
  receive_of_request sample (Listener.reply sample)
      (received (request_buffer sample 1 echo_name asked) 0) serving 1 echo_name asked
      (listener_wrapper sample int32 int32 next) refl asked-Carries refl,
)

abbrev call_sent : (v : World) × Run sample (replies sample) methods asks begin v
unfolding ℕ_discrete generate_request_id
call_sent = (
  _,
  later
      (later
        (later
          (later
            (later here (
              installs listening echo_name (listener_wrapper sample int32 int32 next) (refl, refl)))
            (moves dialling 0 (takes (omega arith))))
          (moves dialling 0 (allocates 10)))
        (moves dialling 0 registers))
      (moves dialling 0 sends),
)

abbrev heard :
    (t : Peer) × (receive sample
        (Dial.reply sample)
        (received (response_buffer sample 1 echo_name told) 0)
        (call_sent.0 dialling).peer
      ≡ done t)
    × (find 0 t.promises ≡ some (Shared.value (some told)))
unfolding resolve_pending find assign erase register_pending make_promise drop_entry ℕ_discrete
    generate_request_id
heard = (
  _,
  receive_of_response sample (Dial.reply sample)
      (received (response_buffer sample 1 echo_name told) 0) (call_sent.0 dialling).peer 1 echo_name
      told refl told-Carries,
  refl,
)

abbrev call_over :
    (v : World) × Run sample (replies sample) methods asks begin v
    × ((v dialling).caller 0 ≡ over 1 (some told))
unfolding resolve_pending find assign erase register_pending make_promise drop_entry ℕ_discrete
    generate_request_id Listener.reply
call_over = (
  _,
  later
      (later
        (later call_sent.1 (
          receives listening (received (request_buffer sample 1 echo_name asked) 0) [] (31 ∷ [])
            refl (λ z. inl refl) served.1))
        (receives dialling (received (response_buffer sample 1 echo_name told) 0) [] (31 ∷ []) refl
          (λ z. inr (inr (inr (inl refl)))) heard.1))
      (moves dialling 0 (wakes heard.2)),
  ap (over 1) told_given,
)

typed_calls-Reads_example :
    Reads sample (response_table sample int32).verify (response_table sample int32).value 8 told
typed_calls-Reads_example =
    typed_calls-Reads sample-laws calls-Fits dialling 0 1 told int32 int32 next 7
      (record {
        asked = refl;
        only = λ h offered. offered.1;
        fits = omega arith;
        small = small_asked;
        result_fits = omega arith;
        result_small = small_answered;
      })
      begin-IsStart call_over.1 call_over.2

-- The connection delivers the request and the response of the call that waits.
calls-Answers_example : Answers sample methods asks dialling 0 1 (non_empty (some told)) call_sent.0
unfolding find assign erase register_pending make_promise drop_entry ℕ_discrete generate_request_id
calls-Answers_example =
    calls-Answers sample-laws calls-Fits dialling 0 1 0 (listener_wrapper sample int32 int32 next)
      begin-IsStart workers call_sent.1 refl refl refl

-- The method is registered, and no call has begun.
abbrev method_there : (v : World) × Run sample (replies sample) methods asks begin v
method_there = (
  _,
  later here (installs listening echo_name (listener_wrapper sample int32 int32 next) (refl, refl)),
)

idle_calls-Answers_example :
    Answers sample methods asks dialling 0 1 (non_empty (some told)) method_there.0
unfolding find assign
idle_calls-Answers_example =
    idle_calls-Answers sample-laws calls-Fits dialling 0 (listener_wrapper sample int32 int32 next)
      begin-IsStart workers method_there.1 refl (omega arith) refl
