-- ===== src/Network/Answering.antt =====
-- A call that waits can still be answered.
use zmq_ipc.Prelude.{ℕ, ◌≡◌, ap, inl, inr, some, List, nat_eq, bytes_eq}
use zmq_ipc.Prelude.Family.{set_at, set_at-All}
use zmq_ipc.FlatBuffers.{FlatBuffers, FlatBuffersLaws}
use zmq_ipc.Nng.Sent.{Sent}
use zmq_ipc.Peer.State.{Peer, Outcome, done, EndsIn-done}
use zmq_ipc.Peer.Messages.{request_buffer}
use zmq_ipc.Peer.Pending.{generate_request_id, make_promise, register_pending, erase_pending}
use zmq_ipc.Peer.Pending.Laws.{IsSound}
use zmq_ipc.Peer.Receive.{Received, receive}
use zmq_ipc.Network.{
  Ask, Caller, waiting, Move, takes, allocates, has_no_memory, registers, sends, fails, wakes,
  expires, erases, Side, dialling, listening, other, Half, World, Offers, Step, moves, receives,
  installs, Run, here, later,
}
use zmq_ipc.Peer.Call.Callbacks.{receive-WithSound}
use zmq_ipc.Network.Invariant.{Replies, Fits}
use zmq_ipc.Network.Invariant.Reached.{IsStart, Run-Inv}

-- A call that waits has sent its request.
abbrev HasAsked : FlatBuffers → Ask → Caller → Peer → Type 0
HasAsked fb a c s =
    (i p : ℕ) → c ≡ waiting i p → Sent (request_buffer fb i a.method_name a.req_buf) s.calls

module _ {fb : FlatBuffers} {a : Ask} where
  -- Nothing that was sent is taken back.
  Move-keeps_Sent :
      {s t : Peer} {c d : Caller} (body : List ℕ)
      → Move fb a c s d t
      → Sent body s.calls
      → Sent body t.calls
  unfolding generate_request_id register_pending make_promise erase_pending
  Move-keeps_Sent body (takes _) h = h
  Move-keeps_Sent body (allocates m) h = inr h
  Move-keeps_Sent body (has_no_memory m rv _) h = inr h
  Move-keeps_Sent body registers h = h
  Move-keeps_Sent body sends h = inr h
  Move-keeps_Sent body (fails rv _) h = inr h
  Move-keeps_Sent body (wakes _) h = h
  Move-keeps_Sent body (expires _) h = h
  Move-keeps_Sent body erases h = h

  Move-HasAsked : {s t : Peer} {c d : Caller} → Move fb a c s d t → HasAsked fb a d t
  Move-HasAsked (takes _) i p e = cc
  Move-HasAsked (allocates m) i p e = cc
  Move-HasAsked (has_no_memory m rv _) i p e = cc
  Move-HasAsked registers i p e = cc
  Move-HasAsked (sends {i = j}) i p e =
      let same : j ≡ i = cc in
      inl (ap (λ n. some (request_buffer fb n a.method_name a.req_buf)) same)
  Move-HasAsked (fails rv _) i p e = cc
  Move-HasAsked (wakes _) i p e = cc
  Move-HasAsked (expires _) i p e = cc
  Move-HasAsked erases i p e = cc

-- Every call that waits has sent its request.
abbrev pub AllAsked : FlatBuffers → (Side → ℕ → Ask) → World → Type 0
AllAsked fb asks w = (x : Side) (k : ℕ) → HasAsked fb (asks x k) ((w x).caller k) (w x).peer

module _ {fb : FlatBuffers} (asks : ℕ → Ask) where
  moved-AllAsked :
      (h : Half) (k : ℕ) {c : Caller} {t : Peer}
      → Move fb (asks k) (h.caller k) h.peer c t
      → ((j : ℕ) → HasAsked fb (asks j) (h.caller j) h.peer)
      → (j : ℕ) → HasAsked fb (asks j) (set_at h.caller k c j) t
  moved-AllAsked h k {c} {t} mv old =
      set_at-All h.caller k c (λ j d. HasAsked fb (asks j) d t) (Move-HasAsked mv)
        λ j ne i p e. Move-keeps_Sent _ mv (old j i p e)

pub receive-keeps_Sent :
    {fb : FlatBuffers} {reply : Received → ℕ → List ℕ → List ℕ → Peer → Outcome Peer}
    → Replies fb reply
    → (e : Received) {s t : Peer} (body : List ℕ) → IsSound s
    → receive fb reply e s ≡ done t
    → Sent body s.calls
    → Sent body t.calls
receive-keeps_Sent {fb} {reply} good e {s} {t} body h ends sent =
    let o =
      receive-WithSound (λ u. Sent body u.calls) (λ i p r u k. k) fb reply good.only e
        (λ c u of k. inr k) s (h, sent) in
    (EndsIn-done (λ u. IsSound u × Sent body u.calls) _ t o ends).1

module _ {fb : FlatBuffers} {replies : Side → Received → ℕ → List ℕ → List ℕ → Peer → Outcome Peer}
    (good : (x : Side) → Replies fb (replies x)) {methods : Side → Offers}
    {asks : Side → ℕ → Ask} where
  Step-AllAsked :
      {w v : World}
      → Step fb replies methods asks w v
      → ((x : Side) → IsSound (w x).peer)
      → AllAsked fb asks w
      → AllAsked fb asks v
  Step-AllAsked {w} (moves dialling k mv) h old dialling =
      moved-AllAsked (asks dialling) (w dialling) k mv (old dialling)
  Step-AllAsked (moves dialling k mv) h old listening = old listening
  Step-AllAsked (moves listening k mv) h old dialling = old dialling
  Step-AllAsked {w} (moves listening k mv) h old listening =
      moved-AllAsked (asks listening) (w listening) k mv (old listening)
  Step-AllAsked (receives dialling e before after at a ends) h old dialling =
      λ k i p q. receive-keeps_Sent (good dialling) e _ (h dialling) ends (old dialling k i p q)
  Step-AllAsked (receives dialling e before after at a ends) h old listening = old listening
  Step-AllAsked (receives listening e before after at a ends) h old dialling = old dialling
  Step-AllAsked (receives listening e before after at a ends) h old listening =
      λ k i p q. receive-keeps_Sent (good listening) e _ (h listening) ends (old listening k i p q)
  Step-AllAsked (installs dialling name g o) h old dialling = old dialling
  Step-AllAsked (installs dialling name g o) h old listening = old listening
  Step-AllAsked (installs listening name g o) h old dialling = old dialling
  Step-AllAsked (installs listening name g o) h old listening = old listening

  module _ (laws : FlatBuffersLaws fb)
      (fits : (x : Side) → Fits fb (methods (other x)) (asks x)) where
    pub Run-AllAsked :
        {w v : World} → IsStart methods w → Run fb replies methods asks w v → AllAsked fb asks v
    Run-AllAsked s here = λ x k i p e. cc ((s x).all_idle k, e)
    Run-AllAsked s (later r st) =
        Step-AllAsked st (λ x. (Run-Inv laws replies good fits s r x).sound) (Run-AllAsked s r)
