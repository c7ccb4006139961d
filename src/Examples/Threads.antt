-- ===== src/Examples/Threads.antt =====
-- What a call leaves owned.
use zmq_ipc.Prelude.{ℕ, ◌≡◌, refl, Option, [], ◌∷◌, some, List, bytes_eq, nat_eq}
use zmq_ipc.Prelude.Dict.{find}
use zmq_ipc.FlatBuffers.Sample.{sample}
use zmq_ipc.Nng.Ownership.{owned}
use zmq_ipc.Peer.State.{done, EndsIn}
use zmq_ipc.Peer.Call.{Calling, call}
use zmq_ipc.Peer.Call.Ends.{Over, Respect}
use zmq_ipc.Peer.Call.Ownership.{left_owned, call-left_owned}
use zmq_ipc.Examples.Setup.{echo_name, argument, caller, caller-IsSound}

-- The send fails.
abbrev unsent : Calling
unsent = record { alloc = 0; msg = 10; sending = 7; others = λ g s. done s }

-- No result is given.
abbrev Nothing : Option (List ℕ) → Type 0
Nothing r = ⊥

unsent-Respect : Respect unsent 1 Nothing
unsent-Respect = record { before = λ s h. h; after = λ p g s h. h }

call-left_owned_example :
    EndsIn
      (λ x. Over 1 Nothing x × (owned x.1.calls ≡ some (10 ∷ [])))
      (call sample unsent echo_name argument caller)
unfolding left_owned owned find
call-left_owned_example =
    call-left_owned sample unsent echo_name argument [] Nothing caller caller-IsSound refl
      unsent-Respect (λ g ps s h. h) refl
