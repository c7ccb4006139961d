-- ===== src/Examples/Worlds.antt =====
-- Two peers that call each other, and the messages of one call.
use zmq_ipc.Prelude.{
  ℕ, suc, zero, ◌^◌, ◌<◌, ◌≡◌, refl, some, List, [], ◌∷◌, arith, length, nat_eq, bytes_eq, subst,
}
use zmq_ipc.Prelude.Dict.{find}
use zmq_ipc.FlatBuffers.{max_size}
use zmq_ipc.FlatBuffers.Sample.{sample, sample-laws, encode, store, add, added, fields_of}
use zmq_ipc.Rpc.{create_rpc_message, request, response}
use zmq_ipc.Rpc.RoundTrip.{Carries}
use zmq_ipc.Peer.State.{HandlerFunc}
use zmq_ipc.Peer.Messages.{
  request_buffer, response_buffer, request_buffer-Carries, response_buffer-Carries,
}
use zmq_ipc.Network.{Offers, Ask, idle, Side, other, World}
use zmq_ipc.Network.Invariant.{Fits}
use zmq_ipc.Network.Invariant.Reached.{IsStart}
use zmq_ipc.Examples.Setup.{echo_name, echo, argument, caller, caller-IsSound, server}

-- thread 0 of each side calls echo with 1 and 2, every other one with 3
abbrev pub asks_of : ℕ → Ask
asks_of zero = record { method_name = echo_name; req_buf = argument }
asks_of (suc k) = record { method_name = echo_name; req_buf = 3 ∷ [] }

abbrev pub asks : Side → ℕ → Ask
asks x = asks_of

abbrev pub methods : Side → Offers
methods x name h = find name server.method_map ≡ some h

-- The peers may have the methods of `server`, and have none of them yet.
abbrev pub begin : World
begin x = record { caller = λ k. idle; peer = caller; armed = 30 ∷ 31 ∷ [] }

pub begin-IsStart : IsStart methods begin
unfolding find
begin-IsStart x = record {
  all_idle = λ k. refl;
  sound = caller-IsSound;
  silent = λ body q. q;
  serves = λ name g f. cc;
}

abbrev pub other_argument : List ℕ
other_argument = 3 ∷ []

small_asked : (i : ℕ) → length (request_buffer sample i echo_name argument) < max_size
unfolding request_buffer create_rpc_message encode store add added fields_of find
small_asked i = ground arith

small_told : (i : ℕ) → length (response_buffer sample i echo_name (echo argument [])) < max_size
unfolding response_buffer create_rpc_message encode store add added fields_of find
small_told i = ground arith

small_asked_other : (i : ℕ) → length (request_buffer sample i echo_name other_argument) < max_size
unfolding request_buffer create_rpc_message encode store add added fields_of find
small_asked_other i = ground arith

small_told_other :
    (i : ℕ) → length (response_buffer sample i echo_name (echo other_argument [])) < max_size
unfolding response_buffer create_rpc_message encode store add added fields_of find
small_told_other i = ground arith

found_echo :
    (P : HandlerFunc → Type 0) (h : HandlerFunc)
    → find echo_name server.method_map ≡ some h
    → P echo
    → P h
unfolding find
found_echo P h e p = let same : echo ≡ h = cc in subst P same p

pub calls-Fits : (x : Side) → Fits sample (methods (other x)) (asks x)
calls-Fits x = record { asked = asked; told = told }
  where
    asked :
        (k i : ℕ)
        → i < 2 ^ 32
        → length (request_buffer sample i (asks_of k).method_name (asks_of k).req_buf) < max_size
    asked zero i lt = small_asked i
    asked (suc k) i lt = small_asked_other i

    told :
        (k i : ℕ) (h : HandlerFunc)
        → i < 2 ^ 32
        → find (asks_of k).method_name server.method_map ≡ some h
        → length (response_buffer sample i (asks_of k).method_name (h (asks_of k).req_buf []))
          < max_size
    told zero i h lt e =
        found_echo (λ g. length (response_buffer sample i echo_name (g argument [])) < max_size) h e
          (small_told i)
    told (suc k) i h lt e =
        found_echo
          (λ g. length (response_buffer sample i echo_name (g other_argument [])) < max_size) h e
          (small_told_other i)

abbrev pub second_request : List ℕ
second_request = request_buffer sample 2 echo_name other_argument

abbrev pub second_response : List ℕ
second_response = response_buffer sample 2 echo_name (7 ∷ other_argument)

pub second_request-Carries : Carries sample second_request request 2 echo_name other_argument
second_request-Carries =
    request_buffer-Carries sample-laws 2 echo_name other_argument (omega arith)
      (small_asked_other 2)

pub second_response-Carries :
    Carries sample second_response response 2 echo_name (7 ∷ other_argument)
second_response-Carries =
    response_buffer-Carries sample-laws 2 echo_name (7 ∷ other_argument) (omega arith)
      (small_told_other 2)
