-- ===== src/Peer/Pending.antt =====
-- Requests that wait for their response. Each operation is what the code does under `pending_mutex`.
pub mod Laws
pub mod Tracks
pub mod Ids
use zmq_ipc.Prelude.{
  ℕ, suc, ◌+◌, ◌%◌, ◌^◌, Option, none, some, List, [], ◌∷◌, nat_eq, if◌then◌else◌,
}
use zmq_ipc.Prelude.Dict.{Dict, find, erase, assign}
use zmq_ipc.Peer.State.{
  Peer, Shared, unset, value, broken, Outcome, done, fault, promise_already_satisfied,
}

-- next_request_id.fetch_add(1), an atomic uint32_t
unfoldable pub generate_request_id : Peer → ℕ × Peer
generate_request_id s =
    (s.next_request_id, record s { next_request_id = (s.next_request_id + 1) % 2 ^ 32 })

-- std::promise prom; prom.get_future()
unfoldable pub make_promise : Peer → ℕ × Peer
make_promise s = (
  s.next_promise,
  record s { promises = assign s.next_promise unset s.promises; next_promise = suc s.next_promise },
)

-- the destructor of a promise: a state with no result becomes broken
abbrev drop_shared : ℕ → Option Shared → Dict ℕ Shared → Dict ℕ Shared
drop_shared p (some unset) m = assign p broken m
drop_shared p _ m = m

unfoldable pub drop_entry : Option ℕ → Dict ℕ Shared → Dict ℕ Shared
drop_entry none m = m
drop_entry (some p) m = drop_shared p (find p m) m

-- pending_requests[id] = std::move(prom): the promise that stood there is destroyed
unfoldable pub register_pending : ℕ → ℕ → Peer → Peer
unfolding drop_entry
register_pending i p s = record s {
  pending_requests = assign i p s.pending_requests;
  promises = drop_entry (find i s.pending_requests) s.promises;
}

-- pending_requests.erase(id): the promise is destroyed with its entry
unfoldable pub erase_pending : ℕ → Peer → Peer
unfolding drop_entry
erase_pending i s = record s {
  pending_requests = erase i s.pending_requests;
  promises = drop_entry (find i s.pending_requests) s.promises;
}

-- set_value: a state that has a result already throws
abbrev set_shared : ℕ → Option (List ℕ) → Option Shared → Dict ℕ Shared → Outcome (Dict ℕ Shared)
set_shared p r (some unset) m = done (assign p (value r) m)
set_shared p r (some (value x)) m = fault promise_already_satisfied
set_shared p r (some broken) m = fault promise_already_satisfied
set_shared p r none m = fault promise_already_satisfied

abbrev set_and_erase : ℕ → Option (List ℕ) → Peer → Outcome (Dict ℕ Shared) → Outcome Peer
set_and_erase i r s (fault e) = fault e
set_and_erase i r s (done m) =
    done (record s { pending_requests = erase i s.pending_requests; promises = m })

abbrev resolve_found : ℕ → Option (List ℕ) → Option ℕ → Peer → Outcome Peer
resolve_found i r none s = done s
resolve_found i r (some p) s = set_and_erase i r s (set_shared p r (find p s.promises) s.promises)

-- case RpcMessageType_RESPONSE: hand the result to the request that waits for it, if any
unfoldable pub resolve_pending : ℕ → Option (List ℕ) → Peer → Outcome Peer
resolve_pending i r s = resolve_found i r (find i s.pending_requests) s
