-- ===== src/Nng.antt =====
-- The nng library (include/nng/*.h, a copy of another project) as its calls: every call that a
-- component makes is recorded, the latest first, with the result that the caller was given. The
-- results come from outside, as arguments of the operations.
pub mod Ownership
pub mod Aios
pub mod Sockets
pub mod Sent
use zmq_ipc.Prelude.{ℕ, List, [], ◌∷◌}

-- nng_pipe_ev
pub data PipeEvent : Type 0 where
  add_post rem_post : PipeEvent

pub data SocketOption : Type 0 where
  reconn_max_t reconn_min_t send_buf recv_buf : SocketOption

-- Sockets and addresses are left out where a component has only one; messages and aios are numbers
-- that stand for their pointers. The last number of a call is its result, 0 for success.
pub data NngCall : Type 0 where
  pair0_open : ℕ → NngCall
  push0_open : ℕ → NngCall
  pull0_open : ℕ → NngCall
  socket_set_int : SocketOption → ℕ → NngCall
  pipe_notify : PipeEvent → NngCall
  dial : List ℕ → ℕ → NngCall
  listen : List ℕ → ℕ → NngCall
  close : NngCall
  aio_alloc : ℕ → ℕ → NngCall
  aio_stop : ℕ → NngCall
  aio_free : ℕ → NngCall
  aio_get_msg : ℕ → NngCall
  recv_aio : ℕ → NngCall
  msg_alloc : ℕ → ℕ → NngCall
  msg_free : ℕ → NngCall
  sendmsg : ℕ → List ℕ → ℕ → NngCall
  send : List ℕ → ℕ → NngCall
