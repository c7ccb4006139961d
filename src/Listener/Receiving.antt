-- ===== src/Listener/Receiving.antt =====
-- The receive callback of the listening peer: the table of pending requests, and nng's messages.
use zmq_ipc.Prelude.{
  ℕ, ◌≡◌, ◌≢◌, ◌∙◌, inl, inr, false, Bool-cases, none, some, List, [], ◌∷◌, nat_beq, bytes_eq,
  if◌then◌else◌, arith,
}
use zmq_ipc.Prelude.Dict.{find}
use zmq_ipc.FlatBuffers.{FlatBuffers}
use zmq_ipc.Nng.{msg_free, msg_alloc, sendmsg}
use zmq_ipc.Nng.Ownership.{owned, holds, release}
use zmq_ipc.Rpc.{request}
use zmq_ipc.Rpc.RoundTrip.{Carries}
use zmq_ipc.Peer.State.{Peer, HandlerFunc, done, called, EndsIn}
use zmq_ipc.Peer.Messages.{response_buffer}
use zmq_ipc.Peer.Pending.Laws.{IsSound, IsSound-called, resolve_pending-EndsIn}
use zmq_ipc.Peer.Receive.{Received, handle_response}
use zmq_ipc.Peer.Receive.Branches.{taken, finished, KeptBy-all, receive-EndsIn, receive_of_request}
use zmq_ipc.Listener.{reply, recv_cb}

module _ (fb : FlatBuffers) where
  reply-EndsIn :
      (e : Received) (i : ℕ) (name resp : List ℕ) (s : Peer)
      → IsSound s
      → EndsIn IsSound (reply fb e i name resp s)
  unfolding reply
  reply-EndsIn e i name resp s h = elim (Bool-cases (nat_beq e.rsp_alloc 0)) [
    | inl q ↦ rw q (IsSound-called _ _ (IsSound-called _ _ (IsSound-called _ s h)))
    | inr q ↦ rw q tt
  ]

  -- Whatever message arrives, the callback ends with a sound table of pending requests, or at a null
  -- pointer or a failed allocation, and never with an exception of a promise.
  pub listener_recv_cb-EndsIn :
      (e : Received) (s : Peer) → IsSound s → EndsIn IsSound (recv_cb fb e s)
  unfolding recv_cb handle_response
  listener_recv_cb-EndsIn e =
      receive-EndsIn fb (reply fb) e IsSound (KeptBy-all _ _ IsSound-called) (reply-EndsIn e)
        λ s _. resolve_pending-EndsIn _ _ s

  module _ (e : Received) (s : Peer) (i : ℕ) (name load : List ℕ) (handler : HandlerFunc)
      (ok : e.result ≡ 0) (carries : Carries fb e.body request i name load)
      (found : find name s.method_map ≡ some handler) (allocated : e.rsp_alloc ≡ 0) (ps : List ℕ)
      (before : owned s.calls ≡ some ps) where
    abbrev served : Peer
    served = finished e (
        called (msg_free e.rsp_msg) (
          called (sendmsg e.rsp_msg (response_buffer fb i name (handler load [])) e.rsp_send)
            (called (msg_alloc e.rsp_msg e.rsp_alloc) (taken e s))))

    recv_cb-served : recv_cb fb e s ≡ done served
    unfolding recv_cb reply
    recv_cb-served =
        receive_of_request fb (reply fb) e s i name load handler ok carries found ∙ rw allocated

    served_sent : e.rsp_send ≡ 0 → holds e.rsp_msg (e.msg ∷ ps) ≡ false → owned served.calls ≡ none
    unfolding owned holds release
    served_sent sent other = ground arith

    served_unsent : e.rsp_send ≢ 0 → owned served.calls ≡ some ps
    unfolding owned holds release
    served_unsent unsent = ground arith

    recv_cb_double_free :
        e.rsp_send ≡ 0
        → holds e.rsp_msg (e.msg ∷ ps) ≡ false
        → (t : Peer) × (recv_cb fb e s ≡ done t) × (owned t.calls ≡ none)
    recv_cb_double_free sent other = (served, recv_cb-served, served_sent sent other)

    recv_cb-owned_unsent :
        e.rsp_send ≢ 0 → (t : Peer) × (recv_cb fb e s ≡ done t) × (owned t.calls ≡ some ps)
    recv_cb-owned_unsent unsent = (served, recv_cb-served, served_unsent unsent)

    -- A request that is served, with a message for the response that is not yet the callback's: if the response is
    -- sent, the rule of ownership is broken, since its message, which then belongs to nng, is freed; if
    -- the send fails, the callback owns in the end what it owned before.
    pub recv_cb-owned :
        holds e.rsp_msg (e.msg ∷ ps) ≡ false
        → (t : Peer) × (recv_cb fb e s ≡ done t)
          × (owned t.calls ≡ (if nat_beq e.rsp_send 0 then none else some ps))
    recv_cb-owned other = elim (Bool-cases (nat_beq e.rsp_send 0)) [
      | inl q ↦ rw q (recv_cb_double_free (ground (arith, q)) other)
      | inr q ↦ rw q (recv_cb-owned_unsent (ground (arith, q)))
    ]
