-- ===== src/Network/Answered.antt =====
-- A call that waits can be answered, if the connection delivers its request and the response to it.
use zmq_ipc.Prelude.{
  ℕ, ◌^◌, ◌<◌, ◌≡◌, ◌≢◌, refl, ◌∙◌, ap, inl, inr, Option, some, List, [], arith, nat_eq, bytes_eq,
}
use zmq_ipc.Prelude.Dict.{find, find-assign}
use zmq_ipc.Prelude.Family.{set_at-same, set_at-other}
use zmq_ipc.FlatBuffers.{FlatBuffers, FlatBuffersLaws}
use zmq_ipc.Nng.Sent.{Sent}
use zmq_ipc.Rpc.{request, response}
use zmq_ipc.Rpc.RoundTrip.{Carries}
use zmq_ipc.Peer.State.{Peer, HandlerFunc, done, unset, value, ◌>>=◌}
use zmq_ipc.Peer.Messages.{response_buffer, request_buffer-Carries, response_buffer-Carries}
use zmq_ipc.Peer.Pending.Laws.{IsSound, IsSound-called, resolved, resolve_pending-some}
use zmq_ipc.Peer.Receive.{Received, receive}
use zmq_ipc.Peer.Receive.Branches.{taken, finished, receive_of_request, receive_of_response}
use zmq_ipc.Peer.Call.{non_empty}
use zmq_ipc.Network.{
  Offers, Ask, Caller, waiting, over, wakes, Side, dialling, listening, other, World, moves,
  receives, Run, here, later,
}
use zmq_ipc.Network.Callers.{id_of, Ready}
use zmq_ipc.Network.Invariant.{Fits}
use zmq_ipc.Network.Invariant.Reached.{IsStart, Run-Inv}
use zmq_ipc.Network.Arming.{Run-armed_same}
use zmq_ipc.Prelude.{length, ◌∷◌}
use zmq_ipc.Network.Answering.{Run-AllAsked}
use zmq_ipc.Network.Peers.{replies, replies-Replies}
use zmq_ipc.Dial
use zmq_ipc.Listener

-- a receive on `aio` that gives `body`, and nng answers the calls after it with success
abbrev pub delivered : ℕ → List ℕ → Received
delivered aio body = record {
  aio = aio;
  result = 0;
  msg = 0;
  body = body;
  rsp_alloc = 0;
  rsp_msg = 0;
  rsp_send = 0;
}

-- Thread `k` of side `x` can come to the end of its call with `bytes`, while every other thread stays where it stands.
pub record Answers (fb : FlatBuffers) (methods : Side → Offers) (asks : Side → ℕ → Ask) (x : Side)
    (k i : ℕ) (bytes : Option (List ℕ)) (v : World) : Type 0 where
  pub last : World
  pub run : Run fb (replies fb) methods asks v last
  pub ends : (last x).caller k ≡ over i bytes
  pub others : (j : ℕ) → k ≢ j → (last x).caller j ≡ (v x).caller j
  pub far : (j : ℕ) → (last (other x)).caller j ≡ (v (other x)).caller j

replies-sends :
    (fb : FlatBuffers) (x : Side) (aio : ℕ) (body : List ℕ) (i : ℕ) (name resp : List ℕ) (s : Peer)
    → (t : Peer) × (replies fb x (delivered aio body) i name resp s ≡ done t)
      × Sent (response_buffer fb i name resp) t.calls
unfolding Dial.reply Listener.reply
replies-sends fb dialling aio body i name resp s = (_, refl, inl refl)
replies-sends fb listening aio body i name resp s = (_, refl, inr (inl refl))

-- A peer that has the method answers a request.
serves :
    (fb : FlatBuffers) (x : Side) (aio : ℕ) (body : List ℕ) (i : ℕ) (name load : List ℕ)
    (h : HandlerFunc) (s : Peer)
    → Carries fb body request i name load
    → find name s.method_map ≡ some h
    → (t : Peer) × (receive fb (replies fb x) (delivered aio body) s ≡ done t)
      × Sent (response_buffer fb i name (h load [])) t.calls
serves fb x aio body i name load h s c found =
    let e = delivered aio body in
    let (t, run, sent) = replies-sends fb x aio body i name (h load []) (taken e s) in
    (
      finished e t,
      receive_of_request fb (replies fb x) e s i name load h refl c found
          ∙ ap (λ o. o >>= λ u. done (finished e u)) run,
      inr (inr sent),
    )

-- A peer hands a response to the call that waits for it.
hears :
    (fb : FlatBuffers) (x : Side) (aio : ℕ) (body : List ℕ) (i p : ℕ) (name load : List ℕ)
    (s : Peer)
    → IsSound s
    → Carries fb body response i name load
    → find i s.pending_requests ≡ some p
    → (t : Peer) × (receive fb (replies fb x) (delivered aio body) s ≡ done t)
      × (find p t.promises ≡ some (value (some load)))
hears fb x aio body i p name load s sound c pending =
    let e = delivered aio body in
    let t = taken e s in
    (
      finished e (resolved i p (some load) t),
      receive_of_response fb (replies fb x) e s i name load refl c
          ∙ ap (λ o. o >>= λ u. done (finished e u))
              (resolve_pending-some i p (some load) t (IsSound-called _ s sound) pending),
      ground (arith, find-assign p p (value (some load)) s.promises),
    )

-- A call whose promise has no result is pending.
pending_of :
    (P : Option (List ℕ) → Type 0) (i p : ℕ) (c : Caller) (s : Peer)
    → c ≡ waiting i p
    → find p s.promises ≡ some unset
    → Ready P c s
    → find i s.pending_requests ≡ some p
unfolding Ready
pending_of P i p c s e unanswered h = elim (rw e at h).waiting [
  | inl q ↦ q
  | inr (x, _, _, answered) ↦ cc
]

first_of : (l : List ℕ) → 0 < length l → (a : ℕ) × (rest : List ℕ) × (l ≡ a ∷ rest)
first_of [] h = absurd (omega arith)
first_of (a ∷ rest) h = (a, rest, refl)

module _ {fb : FlatBuffers} {methods : Side → Offers} {asks : Side → ℕ → Ask} where
  -- The request is served, the response is heard, and the thread wakes.
  exchange :
      (x : Side) (k i p a b : ℕ) {v : World} (idle_there idle_here asked told bytes : List ℕ)
      (t u : Peer)
      → (v x).caller k ≡ waiting i p
      → (v (other x)).armed ≡ a ∷ idle_there
      → (v x).armed ≡ b ∷ idle_here
      → Sent asked (v x).peer.calls
      → receive fb (replies fb (other x)) (delivered a asked) (v (other x)).peer ≡ done t
      → Sent told t.calls
      → receive fb (replies fb x) (delivered b told) (v x).peer ≡ done u
      → find p u.promises ≡ some (value (some bytes))
      → Answers fb methods asks x k i (non_empty (some bytes)) v
  exchange dialling k i p a b {v} idle_there idle_here asked told bytes t u at_wait there here_too
        sent served said heard given =
      record {
        last = _;
        run =
            later
              (later
                (later here
                  (receives listening (delivered a asked) [] idle_there there (λ _. sent) served))
                (receives dialling (delivered b told) [] idle_here here_too (λ _. said) heard))
              (moves dialling k {s = u} (rw at_wait (wakes given)));
        ends = set_at-same (v dialling).caller k _;
        others = λ j ne. set_at-other (v dialling).caller k _ j ne;
        far = λ j. refl;
      }
  exchange listening k i p a b {v} idle_there idle_here asked told bytes t u at_wait there here_too
        sent served said heard given =
      record {
        last = _;
        run =
            later
              (later
                (later here
                  (receives dialling (delivered a asked) [] idle_there there (λ _. sent) served))
                (receives listening (delivered b told) [] idle_here here_too (λ _. said) heard))
              (moves listening k {s = u} (rw at_wait (wakes given)));
        ends = set_at-same (v listening).caller k _;
        others = λ j ne. set_at-other (v listening).caller k _ j ne;
        far = λ j. refl;
      }

module _ {fb : FlatBuffers} (laws : FlatBuffersLaws fb) {methods : Side → Offers}
    {asks : Side → ℕ → Ask} (fits : (x : Side) → Fits fb (methods (other x)) (asks x)) (x : Side)
    (k i p : ℕ) (h : HandlerFunc) where
  armed_still :
      {w v : World}
      → IsStart methods w
      → ((y : Side) → 0 < length (w y).armed)
      → Run fb (replies fb) methods asks w v
      → (y : Side) → (a : ℕ) × (rest : List ℕ) × ((v y).armed ≡ a ∷ rest)
  armed_still {v} s workers r y =
      let same = Run-armed_same laws (replies fb) (replies-Replies fb) fits s r y in
      first_of (v y).armed (omega (arith, same, workers y))

  -- From every world that a run from the start reaches, whatever has arrived before and whichever workers it has
  -- kept busy, a call that waits with no answer yet, for a method that the other side has, can still come to its
  -- end with what the method's handler writes for its argument, or with false if that is empty, while no
  -- other thread moves: its request was sent, a worker of the other side receives and serves it if the
  -- connection delivers it, a worker of its own side receives the response if the connection delivers that, and
  -- the thread wakes. Calls start on fresh peers, each of which has a worker, and all messages fit into
  -- buffers.
  pub calls-Answers :
      {w v : World}
      → IsStart methods w
      → ((y : Side) → 0 < length (w y).armed)
      → Run fb (replies fb) methods asks w v
      → (v x).caller k ≡ waiting i p
      → find p (v x).peer.promises ≡ some unset
      → find (asks x k).method_name (v (other x)).peer.method_map ≡ some h
      → Answers fb methods asks x k i (non_empty (some (h (asks x k).req_buf []))) v
  unfolding id_of
  calls-Answers {v} s workers r at_wait unanswered found =
      let inv = Run-Inv laws (replies fb) (replies-Replies fb) fits s r in
      let name = (asks x k).method_name in
      let load = (asks x k).req_buf in
      let lt : i < 2 ^ 32 =
        omega (arith, (inv x).ids.taken k i (ap id_of at_wait), (inv x).sound.id_fits) in
      let (a, idle_there, there) = armed_still s workers r (other x) in
      let (b, idle_here, here_too) = armed_still s workers r x in
      let (t, served, said) =
        serves fb (other x) a _ i name load h (v (other x)).peer
          (request_buffer-Carries laws i name load lt ((fits x).asked k i lt)) found in
      let (u, heard, given) =
        hears fb x b _ i p name (h load []) (v x).peer (inv x).sound
          (response_buffer-Carries laws i name (h load []) lt
            ((fits x).told k i h lt ((inv (other x)).served name h found)))
          (pending_of _ i p _ (v x).peer at_wait unanswered ((inv x).ready k)) in
      exchange x k i p a b idle_there idle_here _ _ _ t u at_wait there here_too
        (Run-AllAsked (replies-Replies fb) laws fits s r x k i p at_wait) served said heard given
