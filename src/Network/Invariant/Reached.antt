-- ===== src/Network/Invariant/Reached.antt =====
-- The invariant of every reachable world.
use zmq_ipc.Prelude.{
  ℕ, ◌≡◌, ap, subst, inl, inr, Bool-cases, Option, none, some, List, [], nat_eq, bytes_eq, ◌==◌,
}
use zmq_ipc.Prelude.Dict.{find, find-assign}
use zmq_ipc.FlatBuffers.{FlatBuffers, FlatBuffersLaws}
use zmq_ipc.Prelude.{◌≢◌, refl}
use zmq_ipc.Nng.Sent.{Sent}
use zmq_ipc.Peer.State.{with_handler, Peer, HandlerFunc, Outcome}
use zmq_ipc.Peer.Pending.Laws.{IsSound}
use zmq_ipc.Peer.Receive.{Received}
use zmq_ipc.Network.{
  Offers, Ask, idle, over, Side, dialling, listening, other, Half, World, Step, moves, receives,
  installs, Run, here, later,
}
use zmq_ipc.Network.Callers.{id_of, Ready, Ready-keeps}
use zmq_ipc.Network.Invariant.Defs.{Replies, IsResult, Fits, HalfInv, Inv}
use zmq_ipc.Network.Invariant.Moves.{HalfInv-grow, persists, Move-HalfInv}
use zmq_ipc.Network.Invariant.Messages.{receive-HalfInv}

-- No thread has started its call, and the peer has sent nothing: it may have been started.
pub record IsFresh (methods : Offers) (h : Half) : Type 0 where
  pub all_idle : (k : ℕ) → h.caller k ≡ idle
  pub sound : IsSound h.peer
  pub silent : (body : List ℕ) → ¬ Sent body h.peer.calls
  pub serves :
      (name : List ℕ) (g : HandlerFunc) → find name h.peer.method_map ≡ some g → methods name g

abbrev pub IsStart : (Side → Offers) → World → Type 0
IsStart methods w = (x : Side) → IsFresh (methods x) (w x)

IsFresh-HalfInv :
    {fb : FlatBuffers} {methods theirs : Offers} {asks their_asks : ℕ → Ask} {ids : ℕ → Option ℕ}
    (h : Half)
    → IsFresh methods h
    → HalfInv fb methods theirs asks their_asks ids h
unfolding id_of Ready
IsFresh-HalfInv h s = record {
  sound = s.sound;
  ready = λ k. rw (s.all_idle k) tt;
  ids = record { taken = λ k i e. cc (s.all_idle k, e); apart = λ j k i e f. cc (s.all_idle j, e) };
  sends = λ body q. absurd (s.silent body q);
  served = s.serves;
}

-- Methods have no part in the table of pending requests.
with_handler-IsSound :
    (name : List ℕ) (g : HandlerFunc) (s : Peer) → IsSound s → IsSound (with_handler name g s)
with_handler-IsSound name g s h = record {
  waits = h.waits;
  own = h.own;
  below = h.below;
  id_fits = h.id_fits;
}

with_handler_served :
    {methods : Offers} (name : List ℕ) (g : HandlerFunc) (s : Peer)
    → methods name g
    → ((n : List ℕ) (h : HandlerFunc) → find n s.method_map ≡ some h → methods n h)
    → (n : List ℕ) (h : HandlerFunc) → find n (with_handler name g s).method_map ≡ some h
    → methods n h
with_handler_served {methods} name g s offered served n h f =
    let got = rw (find-assign name n g s.method_map) at f in
    elim (Bool-cases (name == n)) [
      | inl q ↦
          let same : g ≡ h = ap (λ o. elim o [ none ↦ g | some x ↦ x ]) (rw q at got) in
          subst (λ m. methods m h) (bytes_eq.beq_sound name n q) (subst (methods name) same offered)
      | inr q ↦ served n h (rw q at got)
    ]

-- A method that the side may have is registered.
with_handler-HalfInv :
    {fb : FlatBuffers} {methods theirs : Offers} {asks their_asks : ℕ → Ask} {ids : ℕ → Option ℕ}
    {w : Half} {name : List ℕ} {g : HandlerFunc}
    → HalfInv fb methods theirs asks their_asks ids w
    → methods name g
    → HalfInv fb methods theirs asks their_asks ids
        (record { caller = w.caller; peer = with_handler name g w.peer; armed = w.armed })
with_handler-HalfInv {theirs} {asks} {w} {name} {g} inv offered = record {
  sound = with_handler-IsSound name g w.peer inv.sound;
  ready = λ k.
      Ready-keeps (IsResult theirs (asks k)) (w.caller k) w.peer (with_handler name g w.peer)
        (λ i p e tr. record {
          sound = with_handler-IsSound name g w.peer tr.sound;
          waiting = tr.waiting;
        })
        (inv.ready k);
  ids = inv.ids;
  sends = inv.sends;
  served = with_handler_served name g w.peer offered inv.served;
}

module _ {fb : FlatBuffers} (laws : FlatBuffersLaws fb)
    (replies : Side → Received → ℕ → List ℕ → List ℕ → Peer → Outcome Peer)
    (good : (x : Side) → Replies fb (replies x)) {methods : Side → Offers} {asks : Side → ℕ → Ask}
    (fits : (x : Side) → Fits fb (methods (other x)) (asks x)) where
  pub Step-Inv :
      {w v : World}
      → Step fb replies methods asks w v
      → Inv fb methods asks w
      → Inv fb methods asks v
  Step-Inv (moves dialling k mv) inv dialling = Move-HalfInv (inv dialling) k mv
  Step-Inv (moves dialling k mv) inv listening =
      HalfInv-grow (persists (inv dialling) k mv) (inv listening)
  Step-Inv (moves listening k mv) inv dialling =
      HalfInv-grow (persists (inv listening) k mv) (inv dialling)
  Step-Inv (moves listening k mv) inv listening = Move-HalfInv (inv listening) k mv
  Step-Inv (receives dialling e before after {t} at arrives ends) inv dialling =
      receive-HalfInv laws (fits dialling) (fits listening) (inv dialling) (inv listening)
        (replies dialling) (good dialling) e t ends arrives
  Step-Inv (receives dialling e before after at arrives ends) inv listening = inv listening
  Step-Inv (receives listening e before after at arrives ends) inv dialling = inv dialling
  Step-Inv (receives listening e before after {t} at arrives ends) inv listening =
      receive-HalfInv laws (fits listening) (fits dialling) (inv listening) (inv dialling)
        (replies listening) (good listening) e t ends arrives
  Step-Inv (installs dialling name h offered) inv dialling =
      with_handler-HalfInv (inv dialling) offered
  Step-Inv (installs dialling name h offered) inv listening = inv listening
  Step-Inv (installs listening name h offered) inv dialling = inv dialling
  Step-Inv (installs listening name h offered) inv listening =
      with_handler-HalfInv (inv listening) offered

  pub Run-keeps :
      {w v : World}
      → Inv fb methods asks w
      → Run fb replies methods asks w v
      → Inv fb methods asks v
  Run-keeps inv here = inv
  Run-keeps inv (later r st) = Step-Inv st (Run-keeps inv r)

  pub Run-Inv :
      {w v : World} → IsStart methods w → Run fb replies methods asks w v → Inv fb methods asks v
  Run-Inv {w} s r = Run-keeps (λ x. IsFresh-HalfInv (w x) (s x)) r

  -- A call of either side that is over with bytes was given what a handler that the other side may
  -- register under its method's name writes for its own argument. Calls start on fresh
  -- peers, all messages fit into buffers, the peers reply with at most the response, and the ids do not wrap.
  pub Run-IsResult :
      {w v : World} (x : Side) (k i : ℕ) (bytes : List ℕ)
      → IsStart methods w
      → Run fb replies methods asks w v
      → (v x).caller k ≡ over i (some bytes)
      → (bytes ≢ []) × IsResult (methods (other x)) (asks x k) (some bytes)
  unfolding Ready
  Run-IsResult x k i bytes s r e = let ready = (Run-Inv s r x).ready k in (rw e at ready) bytes refl
