-- ===== src/Examples/Workers.antt =====
-- Starting and stopping at concrete results: the second of three workers gets no aio.
use zmq_ipc.Prelude.{ℕ, ◌+◌, if◌then◌else◌, nat_beq}
use zmq_ipc.Dial
use zmq_ipc.Dial.{Dial}
use zmq_ipc.Listener

abbrev pub second_fails : ℕ → ℕ
second_fails i = if nat_beq i 1 then 2 else 0

abbrev pub dialling : Dial.Starting
dialling = record { opening = 0; connecting = 0; aio = λ i. 40 + i; allocating = second_fails }

abbrev pub listening : Listener.Starting
listening = record { opening = 0; binding = 0; aio = λ i. 40 + i; allocating = second_fails }
