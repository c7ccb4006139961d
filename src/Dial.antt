-- ===== src/Dial.antt =====
-- src/NngUdsRpcPeerDial.cpp and include/NngUdsRpcPeerDial.hpp. Log output is left out, and with it what
-- isDebugMode controls, but in Dial/Logging.
pub mod Receiving
pub mod Remote
pub mod Workers
pub mod Lifetime
pub mod Sockets
pub mod Methods
pub mod Exchange
pub mod Typed
pub mod Logging
use zmq_ipc.Prelude.{
  ℕ, zero, suc, ◌+◌, Bool, true, false, Option, none, some, List, [], ◌∷◌, ◌++◌, nat_beq, bytes_eq,
  length, if◌then◌else◌,
}
use zmq_ipc.Prelude.Dict.{find, assign}
use zmq_ipc.FlatBuffers.{FlatBuffers}
use zmq_ipc.Nng.{
  PipeEvent, add_post, rem_post, reconn_max_t, reconn_min_t, pair0_open, socket_set_int,
  pipe_notify, dial, close, aio_alloc, aio_stop, aio_free, recv_aio, msg_alloc, sendmsg,
}
use zmq_ipc.Peer.State.{
  with_handler, Peer, HandlerFunc, Outcome, done, fault, no_message, called, ◌>>=◌,
}
use zmq_ipc.Peer.Messages.{response_buffer}
use zmq_ipc.Peer.Receive.{Received, receive}
use zmq_ipc.Peer.Call.{Calling, call}

-- The fields that NngUdsRpcPeerDial has beside those of `Peer`; `A` is what the pipe handler does.
pub record Dial {ℓ} (A : Type ℓ) : Type ℓ where
  pub peer : Peer
  pub on_pipe_event : Option (ℕ → PipeEvent → A)
  pub is_debug_mode : Bool
  pub dial_running : Bool

-- NngPeerDialAioWithContext, which nng hands back to the callback: its aio, and whether it has a server
pub record AioContext : Type 0 where
  pub aio : ℕ
  pub has_server : Bool

-- What nng answers to the calls of `start`: the aio of each worker and the results.
pub record Starting : Type 0 where
  pub opening : ℕ
  pub connecting : ℕ
  pub aio : ℕ → ℕ
  pub allocating : ℕ → ℕ

-- The body of the loop over the workers: one that gets no aio is skipped.
unfoldable pub start_worker : Starting → ℕ → Peer → Peer
start_worker e i s =
    let t = called (aio_alloc (e.aio i) (e.allocating i)) s in
    if nat_beq (e.allocating i) 0
    then called (recv_aio (e.aio i)) (record t { aio_list = t.aio_list ++ (e.aio i ∷ []) })
    else t

unfoldable pub start_workers : Starting → ℕ → ℕ → Peer → Peer
unfolding start_worker
start_workers e zero i s = s
start_workers e (suc n) i s = start_workers e n (i + 1) (start_worker e i s)

-- the socket's options and the two notifications
unfoldable pub set_up : Peer → Peer
set_up s = called (pipe_notify add_post) (
    called (pipe_notify rem_post)
      (called (socket_set_int reconn_min_t 100) (called (socket_set_int reconn_max_t 500) s)))

-- for (ctx : aio_list) { nng_aio_stop; nng_aio_free; delete ctx; }
unfoldable pub stop_workers : List ℕ → Peer → Peer
stop_workers [] s = s
stop_workers (a ∷ rest) s = stop_workers rest (called (aio_free a) (called (aio_stop a) s))

module _ {ℓ} {A : Type ℓ} where
  -- NngUdsRpcPeerDial(addr, workers, debugMode)
  unfoldable pub construct : List ℕ → ℕ → Bool → Dial A
  construct addr workers debug_mode = record {
    peer = record {
      address = addr;
      num_workers = workers;
      aio_list = [];
      method_map = [];
      next_request_id = 1;
      pending_requests = [];
      promises = [];
      next_promise = 0;
      calls = [];
    };
    on_pipe_event = none;
    is_debug_mode = debug_mode;
    dial_running = false;
  }

  unfoldable pub start : Starting → Dial A → Bool × Dial A
  unfolding set_up start_workers
  start e d =
      let s1 = called (pair0_open e.opening) d.peer in
      let s2 = called (dial d.peer.address e.connecting) (set_up s1) in
      if nat_beq e.opening 0
      then (if nat_beq e.connecting 0
          then (
            true,
            record d { peer = start_workers e d.peer.num_workers 0 s2; dial_running = true },
          )
          else (false, record d { peer = called close s2 }))
      else (false, record d { peer = s1 })

  -- what `stop` does after its loop
  abbrev pub end_stop : Dial A → Dial A
  end_stop d = record d {
    peer = called close (record d.peer { aio_list = []; method_map = [] });
    dial_running = false;
  }

  unfoldable pub stop : Dial A → Dial A
  unfolding stop_workers
  stop d = end_stop (record d { peer = stop_workers d.peer.aio_list d.peer })

  -- the destructor
  unfoldable pub destroy : Dial A → Dial A
  unfolding stop
  destroy d = stop d

  unfoldable pub set_pipe_handler : (ℕ → PipeEvent → A) → Dial A → Dial A
  set_pipe_handler handler d = record d { on_pipe_event = some handler }

  unfoldable pub set_rpc_debug_mode : Bool → Dial A → Dial A
  set_rpc_debug_mode enable_debug d = record d { is_debug_mode = enable_debug }

-- The bytes of `resp_out` after the call.
unfoldable pub run_handler : Option HandlerFunc → List ℕ → List ℕ → List ℕ
run_handler none req_buf resp_out = resp_out
run_handler (some handler) req_buf resp_out = handler req_buf resp_out

unfoldable pub dispatch : Peer → List ℕ → List ℕ → List ℕ → List ℕ
unfolding run_handler
dispatch s method_name req_buf resp_out =
    run_handler (find method_name s.method_map) req_buf resp_out

-- What call_remote returns, and its two reference arguments.
pub record Answer : Type 0 where
  pub returned : Bool
  pub resp_buf : Option (List ℕ)
  pub resp_size : ℕ

unfoldable pub answer : Option (List ℕ) → Option (List ℕ) → ℕ → Answer
answer none buf size = record { returned = false; resp_buf = buf; resp_size = size }
answer (some bytes) buf size = record {
  returned = true;
  resp_buf = some bytes;
  resp_size = length bytes;
}

module _ (fb : FlatBuffers) where
  -- the wrapper of register_method<RequestT, ResponseT>, given RequestT::Verify
  unfoldable pub wrapper :
      (fb.Table → fb.Verifier → Option fb.Verifier)
      → (fb.Table → fb.Builder → ℕ × fb.Builder)
      → HandlerFunc
  wrapper verify handler req_buf resp_out =
      if fb.verify_buffer verify (fb.verifier req_buf)
      then (let (resp_offset, b) = handler (fb.get_root req_buf) fb.new_builder in
          fb.get_buffer (fb.finish resp_offset b))
      else resp_out

  unfoldable pub register_method :
      (fb.Table → fb.Verifier → Option fb.Verifier)
      → List ℕ
      → (fb.Table → fb.Builder → ℕ × fb.Builder)
      → Peer
      → Peer
  register_method verify method_name handler s = with_handler method_name (wrapper verify handler) s

  -- The response is sent, and the message kept if that fails. The result of its allocation is not
  -- looked at.
  unfoldable pub reply : Received → ℕ → List ℕ → List ℕ → Peer → Outcome Peer
  reply e i name resp s =
      let t = called (msg_alloc e.rsp_msg e.rsp_alloc) s in
      if nat_beq e.rsp_alloc 0
      then done (called (sendmsg e.rsp_msg (response_buffer fb i name resp) e.rsp_send) t)
      else fault no_message

  unfoldable pub recv_cb : Received → Peer → Outcome Peer
  recv_cb = receive fb reply

  -- the callback that nng is given, with its context or a null pointer
  unfoldable pub recv_cb_static : Option AioContext → Received → Peer → Outcome Peer
  unfolding recv_cb
  recv_cb_static none e s = done s
  recv_cb_static (some ctx) e s =
      if ctx.has_server then recv_cb (record e { aio = ctx.aio }) s else done s

  unfoldable pub call_remote :
      Calling → List ℕ → List ℕ → Option (List ℕ) → ℕ → Peer → Outcome (Answer × Peer)
  unfolding answer
  call_remote e method_name req_buf buf size s = do
    (r, t) ← call fb e method_name req_buf s
    done (answer r buf size, t)
