-- ===== src/Network/Arming.antt =====
-- No worker is lost: every message that the other side sends is well formed.
use zmq_ipc.Prelude.{ℕ, ◌≡◌, refl, ◌∙◌, false, List, ◌∷◌, ◌++◌, arith, length, if◌then◌else◌}
use zmq_ipc.FlatBuffers.{FlatBuffers, FlatBuffersLaws}
use zmq_ipc.Peer.State.{Peer, Outcome, done}
use zmq_ipc.Peer.Receive.{Received, receive}
use zmq_ipc.Peer.Receive.Arming.{arms, is_malformed, Step-armed}
use zmq_ipc.Peer.Receive.Arming as Arming
use zmq_ipc.Network.{
  Offers, Ask, Side, dialling, listening, other, World, Step, moves, receives, installs, Run, here,
  later,
}
use zmq_ipc.Network.Invariant.{Replies, Fits, Inv, receive_well_formed}
use zmq_ipc.Network.Invariant.Reached.{IsStart, Run-Inv}

-- A callback that is given no malformed message leaves as many aios armed as before.
rearmed :
    (fb : FlatBuffers) (reply : Received → ℕ → List ℕ → List ℕ → Peer → Outcome Peer) (e : Received)
    (before after armed : List ℕ) (s t : Peer)
    → armed ≡ before ++ (e.aio ∷ after)
    → receive fb reply e s ≡ done t
    → is_malformed fb e ≡ false
    → length (before ++ (if arms e.aio t.calls then e.aio ∷ after else after)) ≡ length armed
rearmed fb reply e before after armed s t at ends fine =
    let kept =
      Step-armed fb reply {w = record { peer = s; armed = armed }}
        (Arming.receives e before after at ends) in
    omega (arith, rw fine at kept)

module _ {fb : FlatBuffers} (laws : FlatBuffersLaws fb)
    (replies : Side → Received → ℕ → List ℕ → List ℕ → Peer → Outcome Peer)
    (good : (x : Side) → Replies fb (replies x)) {methods : Side → Offers} {asks : Side → ℕ → Ask}
    (fits : (x : Side) → Fits fb (methods (other x)) (asks x)) where
  Step-armed_same :
      {w v : World}
      → Step fb replies methods asks w v
      → Inv fb methods asks w
      → (x : Side) → length (v x).armed ≡ length (w x).armed
  Step-armed_same (moves dialling k mv) inv dialling = refl
  Step-armed_same (moves dialling k mv) inv listening = refl
  Step-armed_same (moves listening k mv) inv dialling = refl
  Step-armed_same (moves listening k mv) inv listening = refl
  Step-armed_same {w} (receives dialling e before after {t} at arrives ends) inv dialling =
      rearmed fb (replies dialling) e before after (w dialling).armed (w dialling).peer t at ends (
        receive_well_formed laws (fits dialling) (fits listening) (inv dialling) (inv listening)
          (replies dialling) (good dialling) e t ends arrives)
  Step-armed_same (receives dialling e before after at arrives ends) inv listening = refl
  Step-armed_same (receives listening e before after at arrives ends) inv dialling = refl
  Step-armed_same {w} (receives listening e before after {t} at arrives ends) inv listening =
      rearmed fb (replies listening) e before after (w listening).armed (w listening).peer t at ends
        (receive_well_formed laws (fits listening) (fits dialling) (inv listening) (inv dialling)
          (replies listening) (good listening) e t ends arrives)
  Step-armed_same (installs dialling name h offered) inv dialling = refl
  Step-armed_same (installs dialling name h offered) inv listening = refl
  Step-armed_same (installs listening name h offered) inv dialling = refl
  Step-armed_same (installs listening name h offered) inv listening = refl

  -- Two peers never lose a worker to each other: in every world that a run from the start reaches, each side has
  -- as many receives in progress as at the start, since every callback starts the next receive, whether nng gave
  -- it an error, a request, a response or what it repeats of them, and no message of the other side is a
  -- malformed one. Calls start on fresh peers, all messages fit into buffers, and the peers reply with at
  -- most the response.
  pub Run-armed_same :
      {w v : World}
      → IsStart methods w
      → Run fb replies methods asks w v
      → (x : Side) → length (v x).armed ≡ length (w x).armed
  Run-armed_same s here x = refl
  Run-armed_same s (later r st) x =
      Step-armed_same st (Run-Inv laws replies good fits s r) x ∙ Run-armed_same s r x
