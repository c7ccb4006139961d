-- ===== src/Listener.antt =====
-- src/NngUdsRpcPeerListener.cpp and include/NngUdsRpcPeerListener.hpp. Log output is left out.
pub mod Receiving
pub mod Remote
pub mod Workers
pub mod Lifetime
pub mod Sockets
use zmq_ipc.Prelude.{
  ℕ, zero, suc, ◌+◌, Bool, true, false, Option, none, some, List, [], ◌∷◌, ◌++◌, nat_beq, bytes_eq,
  length, if◌then◌else◌,
}
use zmq_ipc.Prelude.Dict.{find, assign}
use zmq_ipc.FlatBuffers.{FlatBuffers}
use zmq_ipc.Nng.{
  pair0_open, listen, close, aio_alloc, aio_stop, aio_free, recv_aio, msg_alloc, msg_free, sendmsg,
}
use zmq_ipc.Peer.State.{
  with_handler, Peer, HandlerFunc, Outcome, done, fault, no_message, called, ◌>>=◌,
}
use zmq_ipc.Peer.Messages.{response_buffer}
use zmq_ipc.Peer.Receive.{Received, receive}
use zmq_ipc.Peer.Call.{Calling, call}

-- NngPeerListenerAioWithContext, which nng hands back to the callback: its aio, and whether it has a server
pub record AioContext : Type 0 where
  pub aio : ℕ
  pub has_server : Bool

-- What nng answers to the calls of `start`: the aio of each worker and the results.
pub record Starting : Type 0 where
  pub opening : ℕ
  pub binding : ℕ
  pub aio : ℕ → ℕ
  pub allocating : ℕ → ℕ

-- NngUdsRpcPeerListener has the fields of `Peer` and no others.
abbrev pub Listener : Type 0
Listener = Peer

-- NngUdsRpcPeerListener(addr, workers)
unfoldable pub construct : List ℕ → ℕ → Listener
construct addr workers = record {
  address = addr;
  num_workers = workers;
  aio_list = [];
  method_map = [];
  next_request_id = 1;
  pending_requests = [];
  promises = [];
  next_promise = 0;
  calls = [];
}

-- The loop over the workers: the first that gets no aio ends it, and `start` returns false.
unfoldable pub start_workers : Starting → ℕ → ℕ → Peer → Bool × Peer
start_workers e zero i s = (true, s)
start_workers e (suc n) i s =
    let t = called (aio_alloc (e.aio i) (e.allocating i)) s in
    let rest =
      start_workers e n (i + 1)
        (called (recv_aio (e.aio i)) (record t { aio_list = t.aio_list ++ (e.aio i ∷ []) })) in
    if nat_beq (e.allocating i) 0 then rest else (false, t)

unfoldable pub start : Starting → Peer → Bool × Peer
unfolding start_workers
start e s =
    let s1 = called (pair0_open e.opening) s in
    let s2 = called (listen s.address e.binding) s1 in
    if nat_beq e.opening 0
    then (if nat_beq e.binding 0
        then start_workers e s.num_workers 0 s2
        else (false, called close s2))
    else (false, s1)

-- for (ctx : aio_list) { nng_aio_stop; nng_aio_free; delete ctx; }
unfoldable pub stop_workers : List ℕ → Peer → Peer
stop_workers [] s = s
stop_workers (a ∷ rest) s = stop_workers rest (called (aio_free a) (called (aio_stop a) s))

-- what `stop` does after its loop
abbrev pub end_stop : Listener → Listener
end_stop s = called close (record s { aio_list = [] })

unfoldable pub stop : Listener → Listener
unfolding stop_workers
stop s = end_stop (stop_workers s.aio_list s)

-- the destructor
unfoldable pub destroy : Listener → Listener
unfolding stop
destroy s = stop s

-- run_forever, by the milliseconds of the sleeps of its first rounds: it never returns
unfoldable pub run_forever : ℕ → List ℕ
run_forever zero = []
run_forever (suc rounds) = 1000 ∷ run_forever rounds

-- The bytes of `resp_out` after the call.
unfoldable pub run_handler : Option HandlerFunc → List ℕ → List ℕ → List ℕ
run_handler none req_buf resp_out = resp_out
run_handler (some handler) req_buf resp_out = handler req_buf resp_out

unfoldable pub dispatch : Peer → List ℕ → List ℕ → List ℕ → List ℕ
unfolding run_handler
dispatch s method_name req_buf resp_out =
    run_handler (find method_name s.method_map) req_buf resp_out

-- What call_remote returns, and its two reference arguments; `resp_size` may be a null pointer.
pub record Answer : Type 0 where
  pub returned : Bool
  pub resp_buf : Option (List ℕ)
  pub resp_size : Option ℕ

abbrev store_size : ℕ → Option ℕ → Option ℕ
store_size n none = none
store_size n (some old) = some n

unfoldable pub answer : Option (List ℕ) → Option (List ℕ) → Option ℕ → Answer
answer none buf size = record { returned = false; resp_buf = buf; resp_size = size }
answer (some bytes) buf size = record {
  returned = true;
  resp_buf = some bytes;
  resp_size = store_size (length bytes) size;
}

module _ (fb : FlatBuffers) where
  -- the wrapper of register_method<RequestT, ResponseT>, given RequestT::Verify
  unfoldable pub wrapper :
      (fb.Table → fb.Verifier → Option fb.Verifier)
      → (fb.Table → fb.Builder → ℕ × fb.Builder)
      → HandlerFunc
  wrapper verify handler req_buf resp_out =
      if fb.verify_buffer verify (fb.verifier req_buf)
      then (let (resp_offset, b) = handler (fb.get_root req_buf) fb.new_builder in
          fb.get_buffer (fb.finish resp_offset b))
      else resp_out

  unfoldable pub register_method :
      (fb.Table → fb.Verifier → Option fb.Verifier)
      → List ℕ
      → (fb.Table → fb.Builder → ℕ × fb.Builder)
      → Peer
      → Peer
  register_method verify method_name handler s = with_handler method_name (wrapper verify handler) s

  -- The response is sent, and its message freed, whatever the result of the send. The result of
  -- its allocation is not looked at.
  unfoldable pub reply : Received → ℕ → List ℕ → List ℕ → Peer → Outcome Peer
  reply e i name resp s =
      let t = called (msg_alloc e.rsp_msg e.rsp_alloc) s in
      if nat_beq e.rsp_alloc 0
      then done (
          called (msg_free e.rsp_msg)
            (called (sendmsg e.rsp_msg (response_buffer fb i name resp) e.rsp_send) t))
      else fault no_message

  unfoldable pub recv_cb : Received → Peer → Outcome Peer
  recv_cb = receive fb reply

  -- the callback that nng is given, with its context or a null pointer
  unfoldable pub recv_cb_static : Option AioContext → Received → Peer → Outcome Peer
  unfolding recv_cb
  recv_cb_static none e s = done s
  recv_cb_static (some ctx) e s =
      if ctx.has_server then recv_cb (record e { aio = ctx.aio }) s else done s

  unfoldable pub call_remote :
      Calling → List ℕ → List ℕ → Option (List ℕ) → Option ℕ → Peer → Outcome (Answer × Peer)
  unfolding answer
  call_remote e method_name req_buf buf size s = do
    (r, t) ← call fb e method_name req_buf s
    done (answer r buf size, t)
