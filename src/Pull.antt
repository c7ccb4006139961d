-- ===== src/Pull.antt =====
-- src/NngUdsRpcPullListener.cpp and include/NngUdsRpcPullListener.hpp. Log output and the sleep after a receive without
-- data are left out. The receive loop runs in a thread of its own, so that the two methods that
-- deal with it, and the loop, are cut where a thread waits or looks at `running`.
pub mod Steps
pub mod Lifecycle
pub mod Closing
use zmq_ipc.Prelude.{
  ℕ, suc, ◌+◌, Bool, true, false, Option, none, some, List, [], ◌∷◌, nat_beq, if◌then◌else◌,
}
use zmq_ipc.Nng.{NngCall, pull0_open, socket_set_int, recv_buf, listen, close}

-- The receiving thread: not there, about to look at `running`, in nng_recv, or at its end.
pub data Worker : Type 0 where
  absent testing receiving ended : Worker

-- The user's thread: free, or in `close` waiting for the receiving thread to end.
pub data Caller : Type 0 where
  idle joining : Caller

-- `delivered` is what the callback was given, the latest first; `freed` counts the calls of nng_free.
pub record Pull : Type 0 where
  pub sock_id : ℕ
  pub running : Bool
  pub worker : Worker
  pub caller : Caller
  pub delivered : List (List ℕ)
  pub freed : ℕ
  pub calls : List NngCall

-- What nng answers to the calls of `init`: the results, and the id of the socket if it is opened.
pub record Opening : Type 0 where
  pub opening : ℕ
  pub new_id : ℕ
  pub binding : ℕ

unfoldable pub construct : Pull
construct = record {
  sock_id = 0;
  running = false;
  worker = absent;
  caller = idle;
  delivered = [];
  freed = 0;
  calls = [];
}

abbrev pub called : NngCall → Pull → Pull
called c p = record p { calls = c ∷ p.calls }

unfoldable pub init : Opening → List ℕ → Pull → Bool × Pull
init e url p =
    let p1 = called (pull0_open e.opening) p in
    let p2 = record p1 { sock_id = e.new_id } in
    let p3 = called (listen url e.binding) (called (socket_set_int recv_buf 120) p2) in
    if nat_beq e.opening 0 then (nat_beq e.binding 0, p3) else (false, p1)

unfoldable pub start_recv_loop : Pull → Pull
start_recv_loop p = if p.running then p else record p { running = true; worker = testing }

-- while (running)
unfoldable pub test_running : Pull → Pull
test_running p = if p.running then record p { worker = receiving } else record p { worker = ended }

-- The rest of the loop's body, after nng_recv has returned `rv` and the buffer.
unfoldable pub on_recv : ℕ → Option (List ℕ) → Pull → Pull
on_recv rv none p = record p { worker = testing }
on_recv rv (some buf) p =
    if nat_beq rv 0
    then record p { worker = testing; delivered = buf ∷ p.delivered; freed = suc p.freed }
    else record p { worker = testing }

unfoldable pub joinable : Worker → Bool
joinable absent = false
joinable testing = true
joinable receiving = true
joinable ended = true

-- `close` from its second test on
unfoldable pub close_socket : Pull → Pull
close_socket p =
    if nat_beq p.sock_id 0
    then record p { caller = idle }
    else record p { sock_id = 0; caller = idle; calls = close ∷ p.calls }

-- `close` up to the place where it waits
unfoldable pub close_begin : Pull → Pull
unfolding joinable close_socket
close_begin p =
    let p1 = record p { running = false } in
    let rest = close_socket p1 in
    if p.running
    then (if joinable p.worker then record p1 { caller = joining } else rest)
    else close_socket p

-- `close` after `join` has returned
unfoldable pub close_end : Pull → Pull
unfolding close_socket
close_end p = close_socket (record p { worker = absent })

-- the destructor, up to the place where it waits
unfoldable pub destroy_begin : Pull → Pull
unfolding close_begin
destroy_begin p = close_begin p
