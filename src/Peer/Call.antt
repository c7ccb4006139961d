-- ===== src/Peer/Call.antt =====
-- call_remote of src/NngUdsRpcPeerDial.cpp, which src/NngUdsRpcPeerListener.cpp repeats: up to the bytes that the
-- caller is given, `none` where it returns false.
pub mod Ends
pub mod Callbacks
pub mod Ownership
use zmq_ipc.Prelude.{
  ℕ, Bool, true, false, Option, none, some, List, [], ◌∷◌, nat_beq, nat_eq, if◌then◌else◌,
}
use zmq_ipc.Prelude.Dict.{find}
use zmq_ipc.FlatBuffers.{FlatBuffers}
use zmq_ipc.Nng.{msg_alloc, sendmsg}
use zmq_ipc.Peer.State.{
  Peer, Shared, unset, value, broken, Outcome, done, fault, broken_promise, called, ◌>>=◌,
}
use zmq_ipc.Peer.Pending.{generate_request_id, make_promise, register_pending, erase_pending}
use zmq_ipc.Peer.Messages.{request_buffer}

-- The places where other threads run between the steps of a call.
pub data Gap : Type 0 where
  generated registered send_failed sent timed_out : Gap

-- The results of the calls of nng, the message that it allocates, and what the callbacks and the other
-- calls do to the peer in each gap; the gap `sent` lasts until the wait ends.
pub record Calling : Type 0 where
  pub alloc : ℕ
  pub msg : ℕ
  pub sending : ℕ
  pub others : Gap → Peer → Outcome Peer

-- if (!data_ptr || data_ptr->empty()) return false
unfoldable pub non_empty : Option (List ℕ) → Option (List ℕ)
non_empty none = none
non_empty (some []) = none
non_empty (some (x ∷ xs)) = some (x ∷ xs)

unfoldable pub abandon : (Peer → Outcome Peer) → ℕ → Peer → Outcome (Option (List ℕ) × Peer)
abandon others i s = do t ← others s; done (none, erase_pending i t)

-- The wait of three seconds ends at once when the promise has a result. A promise that was destroyed
-- makes `get` throw.
unfoldable pub end_wait : Calling → ℕ → Option Shared → Peer → Outcome (Option (List ℕ) × Peer)
unfolding abandon non_empty
end_wait e i (some unset) s = abandon (e.others timed_out) i s
end_wait e i (some (value r)) s = done (non_empty r, s)
end_wait e i (some broken) s = fault broken_promise
end_wait e i none s = fault broken_promise

module _ (fb : FlatBuffers) where
  unfoldable pub send_request : Calling → ℕ → ℕ → List ℕ → Peer → Outcome (Option (List ℕ) × Peer)
  unfolding end_wait abandon
  send_request e i p buf s =
      let t = called (sendmsg e.msg buf e.sending) s in
      if nat_beq e.sending 0
      then (do u ← e.others sent t; end_wait e i (find p u.promises) u)
      else abandon (e.others send_failed) i t

  unfoldable pub await_response : Calling → ℕ → List ℕ → Peer → Outcome (Option (List ℕ) × Peer)
  unfolding make_promise register_pending send_request
  await_response e i buf s =
      let (p, t) = make_promise s in
      do u ← e.others registered (register_pending i p t); send_request e i p buf u

  unfoldable pub call : Calling → List ℕ → List ℕ → Peer → Outcome (Option (List ℕ) × Peer)
  unfolding generate_request_id await_response
  call e name load s =
      let (i, t) = generate_request_id s in
      let u = called (msg_alloc e.msg e.alloc) t in
      if nat_beq e.alloc 0
      then (do v ← e.others generated u; await_response e i (request_buffer fb i name load) v)
      else done (none, u)
