-- ===== src/Peer/Pending/Ids.antt =====
-- The ids that a peer gives to its requests.
use zmq_ipc.Prelude.{ℕ, zero, suc, ◌+◌, ◌-◌, ◌%◌, ◌^◌, ◌<◌, ◌≡◌, ◌≢◌, ◌∙◌, arith}
use zmq_ipc.Peer.State.{Peer}
use zmq_ipc.Peer.Pending.{generate_request_id}

-- The peer after `n` ids, and the id that it gives then.
unfoldable pub after_ids : ℕ → Peer → Peer
after_ids zero s = s
after_ids (suc n) s = after_ids n (generate_request_id s).1

unfoldable pub nth_id : ℕ → Peer → ℕ
unfolding after_ids
nth_id n s = (generate_request_id (after_ids n s)).0

nth_id-mod :
    (n : ℕ) (s : Peer) → s.next_request_id < 2 ^ 32 → nth_id n s ≡ (s.next_request_id + n) % 2 ^ 32
unfolding nth_id generate_request_id
nth_id-mod zero s h = omega arith
nth_id-mod (suc n) s h = nth_id-mod n (generate_request_id s).1 (omega arith) ∙ omega arith

-- Two requests that start fewer than 2 ^ 32 requests apart have different ids; an id fits 32 bits; and the
-- request that starts 2 ^ 32 requests later has the same id again.
pub nth_id-ne :
    (m n : ℕ) (s : Peer)
    → s.next_request_id < 2 ^ 32
    → m < n
    → n - m < 2 ^ 32
    → (nth_id m s ≢ nth_id n s) × (nth_id m s < 2 ^ 32) × (nth_id (m + 2 ^ 32) s ≡ nth_id m s)
nth_id-ne m n s h lt near =
    rw (nth_id-mod m s h, nth_id-mod n s h, nth_id-mod (m + 2 ^ 32) s h) (omega arith)
