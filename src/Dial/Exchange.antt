-- ===== src/Dial/Exchange.antt =====
-- A call from the dialling peer to the listening one, and back.
pub mod Answered
pub mod Typed
use zmq_ipc.Prelude.{
  ℕ, zero, suc, ◌<◌, ◌≡◌, ◌≢◌, refl, sym, ap, ◌∙◌, Bool, true, false, Option, none, some, List, [],
  ◌∷◌, arith, nat_eq, nat_beq, bytes_eq, length, if◌then◌else◌,
}
use zmq_ipc.Prelude.Dict.{find, assign, find-assign}
use zmq_ipc.FlatBuffers.{FlatBuffers, FlatBuffersLaws, max_size}
use zmq_ipc.Nng.{NngCall, sendmsg, msg_alloc, msg_free, recv_aio}
use zmq_ipc.Rpc.{request, response}
use zmq_ipc.Peer.State.{
  Peer, HandlerFunc, Outcome, done, fault, called, Shared, unset, value, ◌>>=◌,
}
use zmq_ipc.Peer.Messages.{
  request_buffer, response_buffer, request_buffer-Carries, response_buffer-Carries,
}
use zmq_ipc.Peer.Pending.{generate_request_id, make_promise, register_pending, erase_pending}
use zmq_ipc.Peer.Pending.Laws.{
  IsSound, IsSound-called, generate_request_id-IsSound, resolved, resolve_pending-some,
}
use zmq_ipc.Peer.Pending.Tracks.{Tracks, start-Tracks}
use zmq_ipc.Peer.Receive.{Received}
use zmq_ipc.Peer.Receive.Branches.{
  taken, finished, receive_of_request, receive_of_response, receive_of_unknown,
}
use zmq_ipc.Peer.Call.{
  Gap, generated, registered, send_failed, sent, timed_out, Calling, call, await_response,
  send_request, end_wait, non_empty,
}
use zmq_ipc.Dial
use zmq_ipc.Listener

-- The bytes of the last message that was sent.
unfoldable pub last_sent : List NngCall → Option (List ℕ)
last_sent [] = none
last_sent (sendmsg m body zero ∷ cs) = some body
last_sent (c ∷ cs) = last_sent cs

-- The pointers that nng hands out on both sides of an exchange.
pub record Wire : Type 0 where
  pub request_msg : ℕ
  pub caller_aio : ℕ
  pub caller_msg : ℕ
  pub server_aio : ℕ
  pub server_msg : ℕ
  pub response_msg : ℕ

abbrev pub at_server : Wire → List ℕ → Received
at_server w body = record {
  aio = w.server_aio;
  result = 0;
  msg = w.server_msg;
  body = body;
  rsp_alloc = 0;
  rsp_msg = w.response_msg;
  rsp_send = 0;
}

abbrev pub at_caller : Wire → List ℕ → Received
at_caller w body = record {
  aio = w.caller_aio;
  result = 0;
  msg = w.caller_msg;
  body = body;
  rsp_alloc = 0;
  rsp_msg = 0;
  rsp_send = 0;
}

module _ (fb : FlatBuffers) (w : Wire) (server : Peer) where
  take_back : Option (List ℕ) → Peer → Outcome Peer
  take_back none s = done s
  take_back (some body) s = Dial.recv_cb fb (at_caller w body) s

  hand_on : Option (List ℕ) → Peer → Outcome Peer
  unfolding take_back
  hand_on none s = done s
  hand_on (some body) s = do
    t ← Listener.recv_cb fb (at_server w body) (record server { calls = [] })
    take_back (last_sent t.calls) s

  -- While the caller waits, the message that it sent last reaches the server, and what the server sends
  -- reaches the caller.
  pub deliver : Gap → Peer → Outcome Peer
  unfolding hand_on last_sent
  deliver generated s = done s
  deliver registered s = done s
  deliver send_failed s = done s
  deliver sent s = hand_on (last_sent s.calls) s
  deliver timed_out s = done s

  deliver_generated : (s : Peer) → deliver generated s ≡ done s
  unfolding deliver
  deliver_generated s = refl

  deliver_registered : (s : Peer) → deliver registered s ≡ done s
  unfolding deliver
  deliver_registered s = refl

  deliver_timed_out : (s : Peer) → deliver timed_out s ≡ done s
  unfolding deliver
  deliver_timed_out s = refl

  abbrev pub exchange : Calling
  exchange = record { alloc = 0; msg = w.request_msg; sending = 0; others = deliver }

  module _ (laws : FlatBuffersLaws fb) (name req : List ℕ) (s : Peer) (h : IsSound s)
      (small : length (request_buffer fb s.next_request_id name req) < max_size) where
    -- the caller once its request is sent
    pub waiting_peer : Peer
    waiting_peer = called (sendmsg w.request_msg (request_buffer fb s.next_request_id name req) 0) (
        register_pending s.next_request_id s.next_promise
          (make_promise (called (msg_alloc w.request_msg 0) (generate_request_id s).1)).1)

    waiting-IsSound : IsSound waiting_peer
    unfolding waiting_peer generate_request_id
    waiting-IsSound =
        IsSound-called _ _
          (start-Tracks s.next_request_id (λ r. Unit) _
            (IsSound-called (msg_alloc w.request_msg 0) _ (generate_request_id-IsSound s h))).sound

    pub waiting-pending : find s.next_request_id waiting_peer.pending_requests ≡ some s.next_promise
    unfolding waiting_peer register_pending generate_request_id make_promise
    waiting-pending =
        ground
          (arith, find-assign s.next_request_id s.next_request_id s.next_promise s.pending_requests)

    pub waiting-calls :
        waiting_peer.calls
        ≡ sendmsg w.request_msg (request_buffer fb s.next_request_id name req) 0
          ∷ msg_alloc w.request_msg 0
          ∷ s.calls
    unfolding waiting_peer register_pending generate_request_id make_promise
    waiting-calls = refl

    pub waiting_promise : find s.next_promise waiting_peer.promises ≡ some unset
    waiting_promise = waiting-IsSound.waits s.next_request_id s.next_promise waiting-pending

    module _ (handler : HandlerFunc) (found : find name server.method_map ≡ some handler)
        (small' : length (response_buffer fb s.next_request_id name (handler req []))
          < max_size) where
      served :
          (t : Peer) × (Listener.recv_cb fb
              (at_server w (request_buffer fb s.next_request_id name req))
              (record server { calls = [] })
            ≡ done t)
          × (last_sent t.calls ≡ some (response_buffer fb s.next_request_id name (handler req [])))
      unfolding Listener.recv_cb Listener.reply last_sent
      served = (
        _,
        receive_of_request fb (Listener.reply fb) (at_server w _) _ _ name req handler refl
            (request_buffer-Carries laws s.next_request_id name req h.id_fits small) found,
        refl,
      )

      abbrev answered : Peer
      answered =
          finished (at_caller w (response_buffer fb s.next_request_id name (handler req []))) (
            resolved s.next_request_id s.next_promise (some (handler req [])) (
              taken (at_caller w (response_buffer fb s.next_request_id name (handler req [])))
                waiting_peer))

      taken_back :
          Dial.recv_cb fb
            (at_caller w (response_buffer fb s.next_request_id name (handler req [])))
            waiting_peer
          ≡ done answered
      unfolding Dial.recv_cb
      taken_back =
          receive_of_response fb (Dial.reply fb) (at_caller w _) waiting_peer _ name
            (handler req []) refl
            (response_buffer-Carries laws s.next_request_id name (handler req []) h.id_fits small')
          ∙ rw (
              resolve_pending-some s.next_request_id s.next_promise (some (handler req []))
                (taken (at_caller w _) waiting_peer) (IsSound-called _ _ waiting-IsSound)
                waiting-pending)

      delivered : deliver sent waiting_peer ≡ done answered
      unfolding deliver hand_on take_back waiting_peer last_sent
      delivered = let (t, e, q) = served in rw e (rw q taken_back)

      answered_promise :
          find s.next_promise answered.promises ≡ some (value (some (handler req [])))
      answered_promise = ground (
        arith,
        find-assign s.next_promise s.next_promise (value (some (handler req [])))
            waiting_peer.promises,
      )

      pub call-delivered :
          call fb exchange name req s ≡ done (non_empty (some (handler req [])), answered)
      unfolding call await_response send_request end_wait generate_request_id waiting_peer
      call-delivered = rw (deliver_generated, deliver_registered, delivered, answered_promise)

    module _ (missing : find name server.method_map ≡ none) where
      unserved :
          (t : Peer) × (Listener.recv_cb fb
              (at_server w (request_buffer fb s.next_request_id name req))
              (record server { calls = [] })
            ≡ done t)
          × (last_sent t.calls ≡ none)
      unfolding Listener.recv_cb last_sent
      unserved = (
        _,
        receive_of_unknown fb (Listener.reply fb) (at_server w _) _ _ name req refl
            (request_buffer-Carries laws s.next_request_id name req h.id_fits small) missing,
        refl,
      )

      undelivered : deliver sent waiting_peer ≡ done waiting_peer
      unfolding deliver hand_on take_back waiting_peer last_sent
      undelivered = let (t, e, q) = unserved in rw e (rw q)

      pub call-undelivered :
          call fb exchange name req s ≡ done (none, erase_pending s.next_request_id waiting_peer)
      unfolding call await_response send_request end_wait generate_request_id waiting_peer
      call-undelivered =
          rw
            (deliver_generated, deliver_registered, undelivered, waiting_promise, deliver_timed_out)
