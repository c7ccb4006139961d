-- ===== src/Pull/Steps.antt =====
-- The steps of the user's thread and of the receiving thread, in any order that the two allow.
use zmq_ipc.Prelude.{ℕ, ◌≡◌, ◌≢◌, Option, List, [], ◌∷◌}
use zmq_ipc.Pull.{
  Pull, idle, joining, testing, receiving, ended, Opening, init, start_recv_loop, test_running,
  on_recv, close_begin, close_end,
}

pub data Event : Type 0 where
  opened started tested closing joined : Event
  received : ℕ → Option (List ℕ) → Event

-- `init` is called only while there is no socket, and a socket that nng opens has an id that is not 0.
pub data Step (p : Pull) : Event → Pull → Type 0 where
  inits :
      (e : Opening) (url : List ℕ)
      → p.caller ≡ idle
      → p.sock_id ≡ 0
      → e.new_id ≢ 0
      → Step p opened (init e url p).1
  starts : p.caller ≡ idle → Step p started (start_recv_loop p)
  tests : p.worker ≡ testing → Step p tested (test_running p)
  receives :
      (rv : ℕ) (buf : Option (List ℕ))
      → p.worker ≡ receiving
      → Step p (received rv buf) (on_recv rv buf p)
  closes : p.caller ≡ idle → Step p closing (close_begin p)
  joins : p.caller ≡ joining → p.worker ≡ ended → Step p joined (close_end p)

-- Runs from `p`, with their events, the latest first.
pub data Run (p : Pull) : List Event → Pull → Type 0 where
  here : Run p [] p
  later : {es : List Event} {e : Event} {q r : Pull} → Run p es q → Step q e r → Run p (e ∷ es) r
