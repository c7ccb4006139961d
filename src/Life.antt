-- ===== src/Life.antt =====
-- The life of a peer object, whichever of the two classes (src/NngUdsRpcPeerDial.cpp, src/NngUdsRpcPeerListener.cpp) it is
-- of: starts, stops, registrations, callbacks and the threads that call through it, in any order. A `stop` is
-- several steps, one for each round of its loop, and the others go on between them.
pub mod Duty
pub mod Keeping
pub mod Sockets
use zmq_ipc.Prelude.{ℕ, ◌<◌, ◌≡◌, Bool, Option, none, some, List, [], ◌∷◌}
use zmq_ipc.FlatBuffers.{FlatBuffers}
use zmq_ipc.Nng.Aios.{count}
use zmq_ipc.Peer.State.{Peer, Outcome, done}
use zmq_ipc.Peer.Receive.{Received, receive}
use zmq_ipc.Network.{Ask, Caller, Move}

-- The operations of a class, on objects that hold the fields of a peer.
pub record PeerClass (fb : FlatBuffers) : Type 1 where
  pub Object : Type 0
  pub Starting : Type 0
  pub peer : Object → Peer
  pub with_peer : Peer → Object → Object
  pub start : Starting → Object → Bool × Object
  pub stop_workers : List ℕ → Peer → Peer
  pub end_stop : Object → Object
  pub stop : Object → Object
  pub reply : Received → ℕ → List ℕ → List ℕ → Peer → Outcome Peer
  pub register_method :
      (FlatBuffers.Table fb → FlatBuffers.Verifier fb → Option (FlatBuffers.Verifier fb))
      → List ℕ
      → (FlatBuffers.Table fb → FlatBuffers.Builder fb → ℕ × FlatBuffers.Builder fb)
      → Peer
      → Peer

-- `stopping` has the aios that the loop of a `stop` has still to reach, while one runs.
pub record Living {fb : FlatBuffers} (c : PeerClass fb) : Type 0 where
  pub object : PeerClass.Object c
  pub stopping : Option (List ℕ)

-- no `stop` runs
abbrev pub at_rest : {fb : FlatBuffers} {c : PeerClass fb} → PeerClass.Object c → Living c
at_rest w = record { object = w; stopping = none }

-- The aios that are to be stopped yet, of a peer whose list is `l`.
abbrev pub left : Option (List ℕ) → List ℕ → List ℕ
left none l = l
left (some rest) l = rest

module _ {fb : FlatBuffers} (c : PeerClass fb) where
  abbrev peer_of : Living c → Peer
  peer_of w = c.peer w.object

  abbrev with_peer : Peer → Living c → Living c
  with_peer t w = record { object = c.with_peer t w.object; stopping = w.stopping }

  -- A callback runs for an aio that is not stopped yet. nng_aio_stop waits for the callback of its aio.
  pub data Step (w : Living c) : Living c → Type 0 where
    starts : (e : c.Starting) → w.stopping ≡ none → Step w (at_rest (c.start e w.object).1)
    begins_stop :
        w.stopping ≡ none
        → Step w (record { object = w.object; stopping = some (peer_of w).aio_list })
    stops_worker :
        (a : ℕ) (rest : List ℕ)
        → w.stopping ≡ some (a ∷ rest)
        → Step w (record {
          object = c.with_peer (c.stop_workers (a ∷ []) (peer_of w)) w.object;
          stopping = some rest;
        })
    ends_stop : w.stopping ≡ some [] → Step w (at_rest (c.end_stop w.object))
    receives :
        (e : Received) {t : Peer}
        → 0 < count e.aio (left w.stopping (peer_of w).aio_list)
        → receive fb (c.reply) e (peer_of w) ≡ done t
        → Step w (with_peer t w)
    moves :
        (a : Ask) {x y : Caller} {t : Peer} → Move fb a x (peer_of w) y t → Step w (with_peer t w)
    registers :
        (verify : fb.Table → fb.Verifier → Option fb.Verifier) (name : List ℕ)
        (handler : fb.Table → fb.Builder → ℕ × fb.Builder)
        → Step w (with_peer (c.register_method verify name handler (peer_of w)) w)

  pub data Run (w : Living c) : Living c → Type 0 where
    here : Run w w
    later : {u v : Living c} → Run w u → Step u v → Run w v
