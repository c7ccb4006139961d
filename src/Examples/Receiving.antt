-- ===== src/Examples/Receiving.antt =====
-- The receive callbacks at concrete messages.
use zmq_ipc.Prelude.{ℕ, ◌<◌, length, arith, ◌≡◌, refl, [], ◌∷◌, some, none, false, List, bytes_eq}
use zmq_ipc.Prelude.Dict.{find}
use zmq_ipc.FlatBuffers.Sample.{
  sample, sample-laws, encode, decode, store, add, added, fields_of, has_width, is_pointer, is_some,
  is_decoded,
}
use zmq_ipc.Nng.Ownership.{owned, holds}
use zmq_ipc.Rpc.{request, create_rpc_message, create_rpc_message_direct, verify}
use zmq_ipc.Peer.State.{Peer, done, fault, null_pointer, EndsIn}
use zmq_ipc.Peer.Pending.Laws.{IsSound}
use zmq_ipc.Peer.Receive.{receive}
use zmq_ipc.Peer.Receive.Direct.{receive-direct}
use zmq_ipc.Params.Reads.{buffer_of}
use zmq_ipc.FlatBuffers.{max_size}
use zmq_ipc.Dial
use zmq_ipc.Dial.Receiving.{EndsClean, recv_cb-EndsClean}
use zmq_ipc.Listener
use zmq_ipc.Listener.Receiving.{recv_cb-owned}
use zmq_ipc.Network.Peers.{callbacks-EndsIn}
use zmq_ipc.Examples.Setup.{
  echo_name, echo, argument, server, server-IsSound, request_body, request-Carries, received,
}

nothing_owned : owned server.calls ≡ some []
unfolding owned
nothing_owned = refl

callbacks-EndsIn_example :
    EndsIn IsSound (Dial.recv_cb sample (received request_body 0) server)
    × EndsIn IsSound (Listener.recv_cb sample (received request_body 0) server)
callbacks-EndsIn_example = callbacks-EndsIn sample (received request_body 0) server server-IsSound

recv_cb-EndsClean_example :
    EndsClean sample
      (received request_body 7)
      []
      (Dial.recv_cb sample (received request_body 7) server)
recv_cb-EndsClean_example =
    recv_cb-EndsClean sample (received request_body 7) server [] nothing_owned server-IsSound
      request-Carries.verified

-- three bytes that hold no table
abbrev pub garbage : List ℕ
garbage = 0 ∷ 4 ∷ 1 ∷ []

pub garbage_refused : sample.verify_buffer (verify sample) (sample.verifier garbage) ≡ false
unfolding verify decode is_some is_decoded find has_width is_pointer
garbage_refused = refl

recv_cb-owned_example :
    (t : Peer) × (Listener.recv_cb sample (received request_body 0) server ≡ done t)
    × (owned t.calls ≡ none)
unfolding find holds
recv_cb-owned_example =
    recv_cb-owned sample (received request_body 0) server 1 echo_name argument echo refl
      request-Carries refl refl [] nothing_owned refl

-- a request in which the method is left out
abbrev nameless : List ℕ
nameless =
    buffer_of sample
      (create_rpc_message_direct sample request 5 none (some argument) sample.new_builder)

small_nameless : length nameless < max_size
unfolding create_rpc_message_direct create_rpc_message encode store add added fields_of find
small_nameless = omega arith

receive-direct_example :
    receive sample (Dial.reply sample) (received nameless 0) server ≡ fault null_pointer
receive-direct_example =
    receive-direct sample-laws (Dial.reply sample) request 5 none (some argument)
      (received nameless 0) server (omega arith) (omega arith) small_nameless refl refl

-- a method that is registered for any request, and answers with an empty table
abbrev pub blank : sample.Table → sample.Builder → ℕ × sample.Builder
blank t b = let (start, b1) = sample.start_table b in sample.end_table start b1
