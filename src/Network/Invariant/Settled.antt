-- ===== src/Network/Invariant/Settled.antt =====
-- What a callback leaves as it was, whatever message it is given.
use zmq_ipc.Prelude.{
  ℕ, ◌≡◌, refl, sym, ◌∙◌, inl, inr, Option, Option-cases, List, ◌∷◌, nat_eq, bytes_eq,
}
use zmq_ipc.Prelude.Dict.{find}
use zmq_ipc.FlatBuffers.{FlatBuffers}
use zmq_ipc.Nng.{aio_get_msg, recv_aio, msg_free}
use zmq_ipc.Nng.Sent.{Sent, Sent-quiet}
use zmq_ipc.Peer.State.{Peer, Outcome, done, fault, EndsIn, EndsIn-done, ◌>>=◌}
use zmq_ipc.Peer.Pending.{resolve_pending}
use zmq_ipc.Peer.Pending.Laws.{IsSound, resolve_pending-some, resolve_pending-none}
use zmq_ipc.Peer.Receive.{Received, receive}
use zmq_ipc.Peer.Receive.Branches.{taken, finished}
use zmq_ipc.Peer.Call.Callbacks.{receive-WithSound}
use zmq_ipc.Network.Invariant.Defs.{Replies}

pub done_of_map :
    {A B : Type 0} (f : A → B) (o : Outcome A) (b : B)
    → (o >>= λ a. done (f a)) ≡ done b
    → (a : A) × (o ≡ done a) × (f a ≡ b)
done_of_map f (done a) b e = (a, refl, EndsIn-done (λ x. f a ≡ x) (done (f a)) b refl e)
done_of_map f (fault x) b e = cc

-- the last two calls of a callback send nothing
pub finished-Sent :
    (e : Received) (body : List ℕ) (s : Peer) → Sent body (finished e s).calls → Sent body s.calls
finished-Sent e body s q =
    Sent-quiet body (msg_free e.msg) s.calls refl
      (Sent-quiet body (recv_aio e.aio) (msg_free e.msg ∷ s.calls) refl q)

pub taken-Sent :
    (e : Received) (body : List ℕ) (s : Peer) → Sent body (taken e s).calls → Sent body s.calls
taken-Sent e body s q = Sent-quiet body (aio_get_msg e.msg) s.calls refl q

-- A peer with a sound table that has given out no more ids than `s`, and has its methods.
abbrev pub Settled : Peer → Peer → Type 0
Settled s t = IsSound t × ((t.next_request_id ≡ s.next_request_id) × (t.method_map ≡ s.method_map))

-- Handing over a response sends nothing.
pub resolve_pending-Sent :
    (body : List ℕ) (i : ℕ) (r : Option (List ℕ)) (s t : Peer)
    → IsSound s
    → resolve_pending i r s ≡ done t
    → Sent body t.calls
    → Sent body s.calls
resolve_pending-Sent body i r s t h q = elim (Option-cases (find i s.pending_requests)) [
  | inl e ↦
      EndsIn-done (λ u. Sent body u.calls → Sent body s.calls) (done s) t (λ k. k)
        (sym (resolve_pending-none i r s e) ∙ q)
  | inr (p, e) ↦
      EndsIn-done (λ u. Sent body u.calls → Sent body s.calls) (done _) t (λ k. k)
        (sym (resolve_pending-some i p r s h e) ∙ q)
]

module _ {fb : FlatBuffers} (reply : Received → ℕ → List ℕ → List ℕ → Peer → Outcome Peer)
    (good : Replies fb reply) (e : Received) (s : Peer) where
  pub receive-Settled : IsSound s → EndsIn (Settled s) (receive fb reply e s)
  receive-Settled h =
      receive-WithSound
        (λ t. (t.next_request_id ≡ s.next_request_id) × (t.method_map ≡ s.method_map))
        (λ i p r t k. k) fb reply (good.only) e (λ c t of k. k) s (h, (refl, refl))
