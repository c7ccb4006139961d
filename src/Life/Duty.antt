-- ===== src/Life/Duty.antt =====
-- What every life keeps: a sound table of pending requests, and no aio but those that are to be stopped yet.
use zmq_ipc.Prelude.{ℕ, ◌<◌, ◌≡◌, refl, List, [], ◌∷◌, arith, nat_eq}
use zmq_ipc.Prelude.Dict.{Dict, find}
use zmq_ipc.FlatBuffers.{FlatBuffers}
use zmq_ipc.Nng.{aio_stop, aio_free, NngCall, aio_get_msg, msg_alloc, msg_free, sendmsg}
use zmq_ipc.Nng.Aios.{live, after_call, count}
use zmq_ipc.Peer.State.{Peer, HandlerFunc, called}
use zmq_ipc.Peer.Workers.{live-stopped, Tallies, quiet-Tallies, recv_aio-Tallies}
use zmq_ipc.Peer.Messages.{request_buffer}
use zmq_ipc.Peer.Pending.{generate_request_id, make_promise, register_pending, erase_pending}
use zmq_ipc.Peer.Pending.Laws.{IsSound, IsSound-called}
use zmq_ipc.Peer.Receive.Branches.{OfCallback, KeptBy}
use zmq_ipc.Network.{
  Ask, Caller, Move, takes, allocates, has_no_memory, registers, sends, fails, wakes, expires,
  erases,
}
use zmq_ipc.Network.Callers.{Move-IsSound}

-- The aios that are allocated are those of `l`.
pub record Duty (l : List ℕ) (s : Peer) : Type 0 where
  pub sound : IsSound s
  pub tallies : (a : ℕ) → Tallies a 0 l s

-- Nothing has been called, and no request is pending.
pub new-Duty :
    (s : Peer)
    → s.pending_requests ≡ []
    → s.promises ≡ []
    → s.next_request_id ≡ 1
    → s.calls ≡ []
    → Duty [] s
unfolding find live count
new-Duty s a b c e = record {
  sound = record {
    waits = rw a (λ i p q. cc);
    own = rw a (λ i j p q r. cc);
    below = rw b (λ p x q. cc);
    id_fits = omega (arith, c);
  };
  tallies = λ n. rw e refl;
}

-- One round of the loop of `stop`.
pub stopped-Duty :
    (a : ℕ) (l : List ℕ) (s : Peer)
    → Duty (a ∷ l) s
    → Duty l (called (aio_free a) (called (aio_stop a) s))
stopped-Duty a l s h = record {
  sound = IsSound-called _ _ (IsSound-called _ s h.sound);
  tallies = λ b. live-stopped b a l 0 s (h.tallies b);
}

-- The list of aios has no part in the table of pending requests, nor have the methods.
pub IsSound-with :
    (l : List ℕ) (m : Dict (List ℕ) HandlerFunc) (s : Peer)
    → IsSound s
    → IsSound (record s { aio_list = l; method_map = m })
IsSound-with l m s h = record { waits = h.waits; own = h.own; below = h.below; id_fits = h.id_fits }

-- A move of a caller is not about aios.
Move-Tallies :
    {fb : FlatBuffers} {a : Ask} {x y : Caller} {s t : Peer} (b : ℕ) (l : List ℕ)
    → Move fb a x s y t
    → Tallies b 0 l s
    → Tallies b 0 l t
unfolding generate_request_id register_pending make_promise erase_pending live
Move-Tallies b l (takes _) h = h
Move-Tallies {s} b l (allocates m) h =
    quiet-Tallies b (msg_alloc m 0) 0 l s (λ st n. unfold after_call in refl) h
Move-Tallies {s} b l (has_no_memory m rv _) h =
    quiet-Tallies b (msg_alloc m rv) 0 l s (λ st n. unfold after_call in refl) h
Move-Tallies b l registers h = h
Move-Tallies {fb} {a} {s} b l (sends {i} {m}) h =
    quiet-Tallies b (sendmsg m (request_buffer fb i a.method_name a.req_buf) 0) 0 l s
      (λ st n. unfold after_call in refl) h
Move-Tallies {fb} {a} {s} b l (fails {i} {m} rv _) h =
    quiet-Tallies b (sendmsg m (request_buffer fb i a.method_name a.req_buf) rv) 0 l s
      (λ st n. unfold after_call in refl) h
Move-Tallies b l (wakes _) h = h
Move-Tallies b l (expires _) h = h
Move-Tallies b l erases h = h

pub Move-aio_list :
    {fb : FlatBuffers} {a : Ask} {x y : Caller} {s t : Peer}
    → Move fb a x s y t
    → t.aio_list ≡ s.aio_list
unfolding generate_request_id register_pending make_promise erase_pending
Move-aio_list (takes _) = refl
Move-aio_list (allocates m) = refl
Move-aio_list (has_no_memory m rv _) = refl
Move-aio_list registers = refl
Move-aio_list sends = refl
Move-aio_list (fails rv _) = refl
Move-aio_list (wakes _) = refl
Move-aio_list (expires _) = refl
Move-aio_list erases = refl

pub Move-Duty :
    {fb : FlatBuffers} {a : Ask} {x y : Caller} {s t : Peer} (l : List ℕ)
    → Move fb a x s y t
    → Duty l s
    → Duty l t
Move-Duty l mv h = record {
  sound = Move-IsSound mv h.sound;
  tallies = λ b. Move-Tallies b l mv (h.tallies b);
}

-- The same, with the peer's own list as it was.
abbrev pub Tallied : List ℕ → List ℕ → Peer → Type 0
Tallied l k s = ((a : ℕ) → Tallies a 0 l s) × (s.aio_list ≡ k)

pub callback-Tallied : (a : ℕ) (l k : List ℕ) → 0 < count a l → KeptBy a (Tallied l k)
callback-Tallied a l k has c s of (h, same) = (λ b. tallies b of, same)
  where
    tallies : {c : NngCall} (b : ℕ) → OfCallback a c → Tallies b 0 l (called c s)
    tallies b (OfCallback.fetches {m}) =
        quiet-Tallies b (aio_get_msg m) 0 l s (λ st n. unfold after_call in refl) (h b)
    tallies b OfCallback.receives = recv_aio-Tallies b a 0 l s has (h b)
    tallies b (OfCallback.allocates {m} {rv}) =
        quiet-Tallies b (msg_alloc m rv) 0 l s (λ st n. unfold after_call in refl) (h b)
    tallies b (OfCallback.frees {m}) =
        quiet-Tallies b (msg_free m) 0 l s (λ st n. unfold after_call in refl) (h b)
    tallies b (OfCallback.sends {m} {rv} {body}) =
        quiet-Tallies b (sendmsg m body rv) 0 l s (λ st n. unfold after_call in refl) (h b)
