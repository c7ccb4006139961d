-- ===== src/Examples/Typed.antt =====
-- Typed methods, handlers and the bytes of results at concrete values.
use zmq_ipc.Prelude.{
  ℕ, ◌+◌, ◌<◌, ◌≡◌, refl, true, Bool-cases, inl, inr, Option, none, some, List, [], ◌∷◌, arith,
  length,
}
use zmq_ipc.Prelude.Dict.{find}
use zmq_ipc.FlatBuffers.{max_size}
use zmq_ipc.FlatBuffers.Sample.{
  sample, sample-laws, encode, decode, store, add, added, fields_of, is_some, is_decoded,
}
use zmq_ipc.Rpc.{create_rpc_message}
use zmq_ipc.Peer.State.{Peer, done}
use zmq_ipc.Peer.Messages.{request_buffer, response_buffer}
use zmq_ipc.Dial
use zmq_ipc.Dial.{Answer, call_remote}
use zmq_ipc.Dial.Typed.{with_method, listener_with_method, typed_handler, dispatch-Reads}
use zmq_ipc.Dial.Exchange.{exchange}
use zmq_ipc.Dial.Exchange.Typed.{Returns, call_remote-Returns}
use zmq_ipc.Handler.{handle}
use zmq_ipc.Listener
use zmq_ipc.Methods.{register_method-alike}
use zmq_ipc.Results.{handle-Reads, ReadsBytes, response_with, result_bytes-Reads}
use zmq_ipc.ResultBytes.{
  string_result_bytes, c_string_result_bytes, vector_result_bytes, object_result_bytes,
}
use zmq_ipc.Params.Reads.{Reads, buffer_of}
use zmq_ipc.Params.Kinds.{int32, request_table, response_table, request_of, response_of}
use zmq_ipc.Params.Request.IntRequest
use zmq_ipc.Params.Response.IntResponse
use zmq_ipc.Params.Response.BytesResponse
use zmq_ipc.Examples.Setup.{echo_name, caller, caller-IsSound, server, wire}
use zmq_ipc.Examples.Receiving.{blank}

abbrev pub next : ℕ → ℕ
next n = n + 1

pub small_asked : length (request_of sample int32 7) < max_size
unfolding IntRequest.create IntRequest.start_table IntRequest.add_value IntRequest.finish_table
    encode store add added fields_of find
small_asked = omega arith

pub small_answered : length (response_of sample int32 8) < max_size
unfolding IntResponse.create IntResponse.start_table IntResponse.add_value IntResponse.finish_table
    encode store add added fields_of find
small_answered = omega arith

pub small_request :
    (i : ℕ) → length (request_buffer sample i echo_name (request_of sample int32 7)) < max_size
unfolding request_buffer create_rpc_message IntRequest.create IntRequest.start_table
    IntRequest.add_value IntRequest.finish_table encode store add added fields_of find
small_request i = ground arith

pub small_response :
    (i : ℕ) → length (response_buffer sample i echo_name (response_of sample int32 8)) < max_size
unfolding response_buffer create_rpc_message IntResponse.create IntResponse.start_table
    IntResponse.add_value IntResponse.finish_table encode store add added fields_of find
small_response i = ground arith

dispatch_run :
    Reads sample (response_table sample int32).verify (response_table sample int32).value 8 (
      Dial.dispatch
        (with_method sample int32 int32 next echo_name server)
        echo_name
        (request_of sample int32 7)
        [])
dispatch_run =
    dispatch-Reads sample-laws int32 int32 next 7 (omega arith) small_asked echo_name [] server
      (omega arith) small_answered

call_remote-Returns_example :
    (a : Answer) × (t : Peer) × (call_remote sample
        (exchange sample wire (listener_with_method sample int32 int32 next echo_name server))
        echo_name
        (request_of sample int32 7)
        none
        0
        caller
      ≡ done (a, t))
    × Returns sample int32 8 a
call_remote-Returns_example =
    call_remote-Returns sample-laws int32 int32 next 7 wire server echo_name none 0 caller
      caller-IsSound (omega arith) (omega arith) small_asked small_answered (small_request 1)
      (small_response 1)

handle-Reads_example :
    Reads sample (response_table sample int32).verify (response_table sample int32).value 8 (
      handle sample
        (λ t. next ((request_table sample int32).value t))
        (response_table sample int32).create
        (request_of sample int32 7))
    × (handle sample
          (λ t. next ((request_table sample int32).value t))
          (response_table sample int32).create
          (request_of sample int32 7)
        ≡ Dial.dispatch
            (with_method sample int32 int32 next echo_name server)
            echo_name
            (request_of sample int32 7)
            [])
    × (handle sample
          (λ t. next ((request_table sample int32).value t))
          (response_table sample int32).create
          (request_of sample int32 7)
        ≡ Listener.dispatch
            (listener_with_method sample int32 int32 next echo_name server)
            echo_name
            (request_of sample int32 7)
            [])
handle-Reads_example =
    handle-Reads sample-laws int32 int32 next 7 echo_name [] server (omega arith) (omega arith)
      small_asked small_answered

abbrev hi : List ℕ
hi = 104 ∷ 105 ∷ []

-- the bytes of the int 5
abbrev five : List ℕ
five = 5 ∷ 0 ∷ 0 ∷ 0 ∷ []

small_result :
    length (response_with sample-laws (sample.create_vector hi sample.new_builder)) < max_size
unfolding BytesResponse.create BytesResponse.start_table BytesResponse.add_value
    BytesResponse.finish_table encode store add added fields_of find
small_result = omega arith

small_five :
    length (response_with sample-laws (sample.create_vector five sample.new_builder)) < max_size
unfolding BytesResponse.create BytesResponse.start_table BytesResponse.add_value
    BytesResponse.finish_table encode store add added fields_of find
small_five = omega arith

result_bytes-Reads_example :
    ReadsBytes sample-laws five
      (response_with sample-laws (string_result_bytes sample five sample.new_builder))
    × ReadsBytes sample-laws hi (
        response_with sample-laws
          (c_string_result_bytes sample (104 ∷ 105 ∷ 0 ∷ 77 ∷ []) sample.new_builder))
    × ReadsBytes sample-laws five
        (response_with sample-laws (vector_result_bytes sample five sample.new_builder))
    × ReadsBytes sample-laws five
        (response_with sample-laws (object_result_bytes sample five sample.new_builder))
result_bytes-Reads_example =
    result_bytes-Reads sample-laws sample.new_builder sample-laws.new_builder_pending five hi
      (77 ∷ []) small_five small_result (refl, (refl, tt))

-- a verifier that accepts the table without fields only, and a handler that answers other tables otherwise
abbrev verify_empty : sample.Table → sample.Verifier → Option sample.Verifier
verify_empty [] k = some k
verify_empty (f ∷ fs) k = none

abbrev picky : sample.Table → sample.Builder → ℕ × sample.Builder
picky [] b = blank [] b
picky (f ∷ fs) b = typed_handler sample int32 int32 next (f ∷ fs) b

picky-blank :
    (t : sample.Table) (k : sample.Verifier)
    → is_some (verify_empty t k) ≡ true
    → buffer_of sample (picky t sample.new_builder) ≡ buffer_of sample (blank t sample.new_builder)
unfolding is_some
picky-blank [] k e = refl
picky-blank (f ∷ fs) k e = cc

alike :
    (buf : List ℕ)
    → sample.verify_buffer verify_empty (sample.verifier buf) ≡ true
    → buffer_of sample (picky (sample.get_root buf) sample.new_builder)
      ≡ buffer_of sample (blank (sample.get_root buf) sample.new_builder)
alike buf e = elim (Bool-cases (is_decoded (decode buf))) [
  | inl q ↦ picky-blank (sample.get_root buf) (sample.verifier buf) (rw q at e)
  | inr q ↦ let no_way = rw q at e in cc
]

register_method-alike_example :
    (Dial.register_method sample verify_empty echo_name picky server
      ≡ Dial.register_method sample verify_empty echo_name blank server)
    × (Listener.register_method sample verify_empty echo_name picky server
        ≡ Listener.register_method sample verify_empty echo_name blank server)
register_method-alike_example =
    register_method-alike sample verify_empty picky blank alike echo_name server
