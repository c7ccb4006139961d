-- ===== src/Dial/Exchange/Answered.antt =====
-- What the caller is given in the end.
use zmq_ipc.Prelude.{
  ℕ, ◌<◌, ◌≡◌, ◌≢◌, refl, ◌∙◌, ==-refl, true, false, Option, none, some, List, [], ◌∷◌, bytes_eq,
  nat_eq, length, arith,
}
use zmq_ipc.Prelude.Dict.{find, find-erase, find-assign}
use zmq_ipc.FlatBuffers.{FlatBuffers, FlatBuffersLaws, max_size}
use zmq_ipc.Nng.{sendmsg, msg_alloc}
use zmq_ipc.Nng.Sent.{Sent, silent_calls}
use zmq_ipc.Peer.Receive.{Received}
use zmq_ipc.Peer.Receive.Branches.{receive_of_unknown, taken, finished}
use zmq_ipc.Listener
use zmq_ipc.Peer.State.{Peer, HandlerFunc, done, broken, unset}
use zmq_ipc.Peer.Messages.{request_buffer, response_buffer, request_buffer-Carries}
use zmq_ipc.Peer.Pending.{erase_pending, drop_entry}
use zmq_ipc.Peer.Pending.Laws.{IsSound}
use zmq_ipc.Peer.Call.{Calling, call, non_empty}
use zmq_ipc.Dial.{Answer, answer, call_remote}
use zmq_ipc.Dial.Exchange.{
  Wire, exchange, call-delivered, call-undelivered, waiting_peer, waiting-pending, waiting_promise,
  waiting-calls, at_server,
}

answer-non_empty :
    (bytes : List ℕ) (buf : Option (List ℕ)) (size : ℕ)
    → bytes ≢ []
    → answer (non_empty (some bytes)) buf size
      ≡ record { returned = true; resp_buf = some bytes; resp_size = length bytes }
unfolding answer non_empty
answer-non_empty [] buf size ne = absurd (ne refl)
answer-non_empty (x ∷ xs) buf size ne = refl

call_remote-done :
    (fb : FlatBuffers) (e : Calling) (name req : List ℕ) (buf : Option (List ℕ)) (size : ℕ)
    (s : Peer) {r : Option (List ℕ)} {t : Peer} {a : Answer}
    → answer r buf size ≡ a
    → call fb e name req s ≡ done (r, t)
    → call_remote fb e name req buf size s ≡ done (a, t)
unfolding call_remote
call_remote-done fb e name req buf size s p q = rw (q, p)

module _ {fb : FlatBuffers} (laws : FlatBuffersLaws fb) (w : Wire) (server : Peer)
    (name req : List ℕ) (buf : Option (List ℕ)) (size : ℕ) (s : Peer) (h : IsSound s)
    (small : length (request_buffer fb s.next_request_id name req) < max_size) where
  module _ (handler : HandlerFunc) (found : find name server.method_map ≡ some handler)
      (small' : length (response_buffer fb s.next_request_id name (handler req []))
        < max_size) where
    -- A method that the server has registered is called with the request's bytes, and the caller gets
    -- true and the bytes that the method wrote, if it wrote any. The messages fit into buffers,
    -- and every call of nng succeeds.
    pub call_remote-answered :
        handler req [] ≢ []
        → (t : Peer) × (call_remote fb (exchange fb w server) name req buf size s
            ≡ done (
              record {
                returned = true;
                resp_buf = some (handler req []);
                resp_size = length (handler req []);
              },
              t,
            ))
    call_remote-answered ne = (
      _,
      call_remote-done fb _ name req buf size s (answer-non_empty (handler req []) buf size ne)
          (call-delivered fb w server laws name req s h small handler found small'),
    )

    -- A method that writes nothing, such as a registered one whose request does not verify, is run, but
    -- its caller gets false.
    call_remote-empty :
        handler req [] ≡ []
        → (t : Peer) × (call_remote fb (exchange fb w server) name req buf size s
            ≡ done (record { returned = false; resp_buf = buf; resp_size = size }, t))
    unfolding answer non_empty
    call_remote-empty e = (
      _,
      call_remote-done fb _ name req buf size s (rw e)
          (call-delivered fb w server laws name req s h small handler found small'),
    )

  -- the message that the server receives
  abbrev pub asked : Received
  asked = at_server w (request_buffer fb s.next_request_id name req)

  -- A call of a method that the server does not know: the server sends nothing, and the caller has received nothing
  -- when its wait is over.
  pub record Unanswered : Type 0 where
    pub served : Peer
    pub serves : Listener.recv_cb fb asked (record server { calls = [] }) ≡ done served
    pub silent : (body : List ℕ) → ¬ Sent body served.calls
    pub after : Peer
    pub gives :
        call_remote fb (exchange fb w server) name req buf size s
        ≡ done (record { returned = false; resp_buf = buf; resp_size = size }, after)
    pub calls :
        after.calls
        ≡ sendmsg w.request_msg (request_buffer fb s.next_request_id name req) 0
          ∷ msg_alloc w.request_msg 0
          ∷ s.calls
    pub forgotten : find s.next_request_id after.pending_requests ≡ none
    pub unset_to_the_end : find s.next_promise after.promises ≡ some broken

  -- The promise of a request goes with its entry, without a value.
  erased_promise :
      (i p : ℕ) (t : Peer)
      → find i t.pending_requests ≡ some p
      → find p t.promises ≡ some unset
      → find p (erase_pending i t).promises ≡ some broken
  unfolding erase_pending drop_entry
  erased_promise i p t e open_yet =
      rw (e, open_yet) (find-assign p p broken t.promises ∙ rw (==-refl p))

  -- A method that the server does not know is not answered: the server's callback ends and sends no message, and the
  -- caller waits until its time is over. It has been given no message then, its promise is destroyed without
  -- a value, its request is no longer pending, and it gets false with its arguments as they were. The
  -- request fits into a buffer, and every call of nng succeeds.
  pub call_remote-unknown : find name server.method_map ≡ none → Unanswered
  unfolding answer erase_pending Listener.recv_cb
  call_remote-unknown missing = record {
    served = _;
    serves =
        receive_of_unknown fb (Listener.reply fb) asked _ _ name req refl
          (request_buffer-Carries laws s.next_request_id name req h.id_fits small) missing;
    silent = λ body.
        silent_calls body (finished asked (taken asked (record server { calls = [] }))).calls
          (refl, (refl, (refl, tt)));
    after = _;
    gives =
        call_remote-done fb _ name req buf size s refl
          (call-undelivered fb w server laws name req s h small missing);
    calls = waiting-calls fb w server laws name req s h small;
    forgotten = ground (
      arith,
      find-erase s.next_request_id s.next_request_id
          (waiting_peer fb w server laws name req s h small).pending_requests,
    );
    unset_to_the_end =
        erased_promise s.next_request_id s.next_promise
          (waiting_peer fb w server laws name req s h small)
          (waiting-pending fb w server laws name req s h small)
          (waiting_promise fb w server laws name req s h small);
  }
