-- ===== src/Push.antt =====
-- src/NngUdsRpcPushDial.cpp and include/NngUdsRpcPushDial.hpp. Log output is left out. The class forbids no order of calls:
-- `init` may be called again.
pub mod Socket
use zmq_ipc.Prelude.{ℕ, Bool, true, false, List, [], ◌∷◌, nat_beq, if◌then◌else◌}
use zmq_ipc.Nng.{NngCall, push0_open, socket_set_int, send_buf, dial, send, close}

-- The socket's id, 0 for none, and the calls of nng, the latest first.
pub record Push : Type 0 where
  pub sock_id : ℕ
  pub calls : List NngCall

-- What nng answers to the calls of `init`: the results, and the id of the socket if it is opened.
pub record Opening : Type 0 where
  pub opening : ℕ
  pub new_id : ℕ
  pub connecting : ℕ

unfoldable pub construct : Push
construct = record { sock_id = 0; calls = [] }

abbrev pub called : NngCall → Push → Push
called c p = record p { calls = c ∷ p.calls }

-- A dial that fails leaves the socket open and its id in place.
unfoldable pub init : Opening → List ℕ → Push → Bool × Push
init e url p =
    let p1 = called (push0_open e.opening) p in
    let p2 = record p1 { sock_id = e.new_id } in
    let p3 = called (dial url e.connecting) (called (socket_set_int send_buf 120) p2) in
    if nat_beq e.opening 0 then (nat_beq e.connecting 0, p3) else (false, p1)

-- `rv` is the result of nng_send
unfoldable pub send_data : ℕ → List ℕ → Push → Bool × Push
send_data rv bytes p = (nat_beq rv 0, called (send bytes rv) p)

unfoldable pub close_push : Push → Push
close_push p = if nat_beq p.sock_id 0 then p else record { sock_id = 0; calls = close ∷ p.calls }

-- the destructor
unfoldable pub destroy : Push → Push
unfolding close_push
destroy p = close_push p
