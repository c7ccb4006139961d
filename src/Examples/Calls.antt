-- ===== src/Examples/Calls.antt =====
-- Remote calls at concrete peers.
use zmq_ipc.Prelude.{ℕ, ◌≡◌, refl, Option, [], ◌∷◌, some, none, true, List, All, bytes_eq, nat_eq}
use zmq_ipc.Prelude.Dict.{find}
use zmq_ipc.FlatBuffers.Sample.{sample, sample-laws}
use zmq_ipc.Peer.State.{Peer, done, EndsIn}
use zmq_ipc.Peer.Call.{Gap, generated, registered, send_failed, sent, timed_out, Calling}
use zmq_ipc.Peer.Receive.{Received}
use zmq_ipc.Peer.Call.Callbacks.{Answers, among}
use zmq_ipc.Dial
use zmq_ipc.Listener
use zmq_ipc.Dial.{call_remote}
use zmq_ipc.Dial.Remote.{AnswerOver, call_remote-AnswerOver}
use zmq_ipc.Listener.Remote
use zmq_ipc.Listener.Remote.{listener_call_remote-AnswerOver}
use zmq_ipc.Dial.Exchange.{exchange}
use zmq_ipc.Dial.Exchange.Answered.{call_remote-answered, call_remote-unknown, Unanswered}
use zmq_ipc.Examples.Setup.{
  echo_name, echo, argument, caller, caller-IsSound, server, wire, small_request, small_response,
  response_body, response-Carries, received,
}

call_remote-answered_example :
    (t : Peer) × (call_remote sample (exchange sample wire server) echo_name argument none 0 caller
      ≡ done (record { returned = true; resp_buf = some (7 ∷ 1 ∷ 2 ∷ []); resp_size = 3 }, t))
unfolding find
call_remote-answered_example =
    call_remote-answered sample-laws wire server echo_name argument none 0 caller caller-IsSound
      small_request echo refl small_response (λ e. cc)

call_remote-unknown_example :
    Unanswered sample-laws wire caller echo_name argument none 0 caller caller-IsSound small_request
unfolding find
call_remote-unknown_example =
    call_remote-unknown sample-laws wire caller echo_name argument none 0 caller caller-IsSound
      small_request refl

-- The response arrives while the call waits; its payload is the one that is Expected.
abbrev Expected : Option (List ℕ) → Type 0
Expected r = r ≡ some (7 ∷ 1 ∷ 2 ∷ [])

abbrev arriving : Gap → List Received
arriving generated = []
arriving registered = []
arriving send_failed = []
arriving sent = received response_body 0 ∷ []
arriving timed_out = []

arriving-Expected : (g : Gap) → All (Answers sample 1 Expected) (arriving g)
arriving-Expected generated = tt
arriving-Expected registered = tt
arriving-Expected send_failed = tt
arriving-Expected sent = (λ q j. rw (response-Carries.loaded, response-Carries.load_bytes), tt)
arriving-Expected timed_out = tt

abbrev calling : Calling
calling = record { alloc = 0; msg = 10; sending = 0; others = λ g s. done s }

call_remote-AnswerOver_example : EndsIn (AnswerOver 1 Expected none 0) (
    call_remote sample
      (among sample (Dial.reply sample) arriving calling)
      echo_name
      argument
      none
      0
      caller)
unfolding find
call_remote-AnswerOver_example =
    call_remote-AnswerOver sample calling arriving echo_name argument none 0 Expected caller
      caller-IsSound refl arriving-Expected

listener_call_remote-AnswerOver_example : EndsIn (Listener.Remote.AnswerOver 1 Expected none none) (
    Listener.call_remote sample
      (among sample (Listener.reply sample) arriving calling)
      echo_name
      argument
      none
      none
      caller)
unfolding find
listener_call_remote-AnswerOver_example =
    listener_call_remote-AnswerOver sample calling arriving echo_name argument none none Expected
      caller caller-IsSound refl arriving-Expected
