-- ===== src/Stream.antt =====
-- A pusher (src/NngUdsRpcPushDial.cpp) and a puller (src/NngUdsRpcPullListener.cpp) with the connection between them, which
-- may lose messages and does not reorder or repeat them, as the manual of nng says of a push and a pull socket.
pub mod Delivery
use zmq_ipc.Prelude.{ℕ, zero, suc, ◌≡◌, ◌≢◌, ◌⊎◌, Option, none, some, List, [], ◌∷◌, ◌++◌}
use zmq_ipc.Nng.{NngCall, send}
use zmq_ipc.Push.{Push}
use zmq_ipc.Push.Socket.{Use, inits, sends, closes, use_once}
use zmq_ipc.Pull.{Pull, receiving, on_recv}
use zmq_ipc.Pull.Steps.{Event, opened, started, tested, closing, joined, received}

-- `wire` has the messages on their way, the latest first, and `lost` counts those that were lost.
pub record Stream : Type 0 where
  pub push : Push
  pub wire : List (List ℕ)
  pub lost : ℕ
  pub pull : Pull

-- A message goes on its way if nng_send returns 0.
abbrev pub on_wire : Use → List (List ℕ) → List (List ℕ)
on_wire (inits e url) ms = ms
on_wire (sends zero bytes) ms = bytes ∷ ms
on_wire (sends (suc rv) bytes) ms = ms
on_wire closes ms = ms

-- A step of the puller in which no nng_recv returns.
abbrev pub IsQuiet : Event → Type 0
IsQuiet opened = Unit
IsQuiet started = Unit
IsQuiet tested = Unit
IsQuiet closing = Unit
IsQuiet joined = Unit
IsQuiet (received rv buf) = ⊥

pub data Step (w : Stream) : Stream → Type 0 where
  uses : (u : Use) → Step w (record w { push = use_once u w.push; wire = on_wire u w.wire })
  loses :
      (newer older : List (List ℕ)) (m : List ℕ)
      → w.wire ≡ newer ++ (m ∷ older)
      → Step w (record w { wire = newer ++ older; lost = suc w.lost })
  turns :
      {e : Event} {q : Pull}
      → IsQuiet e
      → zmq_ipc.Pull.Steps.Step w.pull e q
      → Step w (record w { pull = q })
  receives :
      (newer : List (List ℕ)) (m : List ℕ)
      → w.pull.worker ≡ receiving
      → w.wire ≡ newer ++ (m ∷ [])
      → Step w (record w { wire = newer; pull = on_recv 0 (some m) w.pull })
  fails :
      (rv : ℕ) (buf : Option (List ℕ))
      → w.pull.worker ≡ receiving
      → (rv ≢ 0) ⊎ (buf ≡ none)
      → Step w (record w { pull = on_recv rv buf w.pull })

pub data Run (w : Stream) : Stream → Type 0 where
  here : Run w w
  later : {u v : Stream} → Run w u → Step u v → Run w v

-- the messages that were sent with success, the latest first
abbrev pub sent_by : NngCall → List (List ℕ)
sent_by (send bytes zero) = bytes ∷ []
sent_by _ = []

unfoldable pub sent : List NngCall → List (List ℕ)
sent [] = []
sent (c ∷ cs) = sent_by c ++ sent cs
