-- ===== src/Network/Peers.antt =====
-- The two peers as client and as server.
use zmq_ipc.Prelude.{ℕ, ◌≡◌, ◌≢◌, refl, ◌⊎◌, inl, inr, Bool-cases, some, List, [], ◌∷◌, nat_beq}
use zmq_ipc.FlatBuffers.{FlatBuffers, FlatBuffersLaws}
use zmq_ipc.Nng.{NngCall, msg_alloc, msg_free, sendmsg}
use zmq_ipc.Nng.Sent.{Sent, Sent-quiet, Sent-send}
use zmq_ipc.Peer.State.{Peer, Outcome, EndsIn, EndsIn-done}
use zmq_ipc.Peer.Messages.{response_buffer}
use zmq_ipc.Peer.Receive.{Received}
use zmq_ipc.Network.{Offers, Ask, over, Side, dialling, listening, other, World, Run}
use zmq_ipc.Network.Invariant.{Replies, Fits, IsResult}
use zmq_ipc.Network.Invariant.Reached.{IsStart, Run-IsResult}
use zmq_ipc.Peer.Pending.Laws.{IsSound}
use zmq_ipc.Dial.Receiving.{recv_cb-EndsIn}
use zmq_ipc.Listener.Receiving.{listener_recv_cb-EndsIn}
use zmq_ipc.Dial
use zmq_ipc.Dial.Remote as DialRemote
use zmq_ipc.Listener
use zmq_ipc.Listener.Remote as ListenerRemote

module _ (fb : FlatBuffers) (e : Received) (i : ℕ) (name resp : List ℕ) (s : Peer) where
  -- the calls of a reply, but the last of the listener's
  abbrev sending : List NngCall
  sending =
      sendmsg e.rsp_msg (response_buffer fb i name resp) e.rsp_send
      ∷ msg_alloc e.rsp_msg e.rsp_alloc
      ∷ s.calls

  -- What a reply may send: at most the response.
  abbrev Replied : Peer → Type 0
  Replied t =
      (body : List ℕ)
      → Sent body t.calls
      → (body ≡ response_buffer fb i name resp) ⊎ Sent body s.calls

  Sent-response :
      (body : List ℕ)
      → Sent body sending
      → (body ≡ response_buffer fb i name resp) ⊎ Sent body s.calls
  Sent-response body q =
      elim (Sent-send e.rsp_msg e.rsp_send body _ (msg_alloc e.rsp_msg e.rsp_alloc ∷ s.calls) q) [
        | inl new ↦ inl new
        | inr old ↦ inr (Sent-quiet body (msg_alloc e.rsp_msg e.rsp_alloc) s.calls refl old)
      ]

  dial_reply-Replied : EndsIn Replied (Dial.reply fb e i name resp s)
  unfolding Dial.reply
  dial_reply-Replied = elim (Bool-cases (nat_beq e.rsp_alloc 0)) [
    | inl ok ↦ rw ok Sent-response
    | inr ko ↦ rw ko tt
  ]

  listener_reply-Replied : EndsIn Replied (Listener.reply fb e i name resp s)
  unfolding Listener.reply
  listener_reply-Replied = elim (Bool-cases (nat_beq e.rsp_alloc 0)) [
    | inl ok ↦
        rw ok (λ body q. Sent-response body (Sent-quiet body (msg_free e.rsp_msg) sending refl q))
    | inr ko ↦ rw ko tt
  ]

-- how each side replies
abbrev pub replies : FlatBuffers → Side → Received → ℕ → List ℕ → List ℕ → Peer → Outcome Peer
replies fb dialling = Dial.reply fb
replies fb listening = Listener.reply fb

pub replies-Replies : (fb : FlatBuffers) (x : Side) → Replies fb (replies fb x)
replies-Replies fb dialling = record {
  only = DialRemote.reply-OnlyCalls fb;
  sends = λ e i name resp body s t q.
      EndsIn-done (Replied fb e i name resp s) _ t (dial_reply-Replied fb e i name resp s) q body;
}
replies-Replies fb listening = record {
  only = ListenerRemote.reply-OnlyCalls fb;
  sends = λ e i name resp body s t q.
      EndsIn-done (Replied fb e i name resp s) _ t (listener_reply-Replied fb e i name resp s) q
        body;
}

-- Whatever message arrives at a dialling or at a listening peer, its callback ends with a sound table of pending
-- requests, or at a null pointer or a failed allocation, and never with an exception of a promise.
pub callbacks-EndsIn :
    (fb : FlatBuffers) (e : Received) (s : Peer)
    → IsSound s
    → EndsIn IsSound (Dial.recv_cb fb e s) × EndsIn IsSound (Listener.recv_cb fb e s)
callbacks-EndsIn fb e s h = (recv_cb-EndsIn fb e s h, listener_recv_cb-EndsIn fb e s h)

-- Any number of calls of a dialling and a listening peer at each other, at the same time and in both directions:
-- a call that is over with bytes was given what a handler that the other side may register under its
-- method's name writes for its own argument, and never what belongs to another call, however the messages
-- of the calls are lost, repeated and reordered, and whatever methods are registered meanwhile. Calls
-- start on fresh peers, all messages fit into buffers, and the ids do not wrap.
pub calls-IsResult :
    {fb : FlatBuffers} (laws : FlatBuffersLaws fb) {methods : Side → Offers} {asks : Side → ℕ → Ask}
    (fits : (x : Side) → Fits fb (methods (other x)) (asks x)) {w v : World} (x : Side) (k i : ℕ)
    (bytes : List ℕ)
    → IsStart methods w
    → Run fb (replies fb) methods asks w v
    → (v x).caller k ≡ over i (some bytes)
    → (bytes ≢ []) × IsResult (methods (other x)) (asks x k) (some bytes)
calls-IsResult {fb} laws fits x k i bytes s r e =
    Run-IsResult laws (replies fb) (replies-Replies fb) fits x k i bytes s r e
