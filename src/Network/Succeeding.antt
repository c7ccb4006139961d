-- ===== src/Network/Succeeding.antt =====
-- A call that has not begun can still succeed.
use zmq_ipc.Prelude.{
  ℕ, ◌+◌, ◌^◌, ◌<◌, ◌≡◌, ◌≢◌, refl, sym, ◌∙◌, ap, subst, some, List, [], nat_eq, bytes_eq, ==-refl,
  length,
}
use zmq_ipc.Prelude.Dict.{find, find-assign}
use zmq_ipc.Prelude.Family.{set_at, set_at-same, set_at-other}
use zmq_ipc.FlatBuffers.{FlatBuffers, FlatBuffersLaws}
use zmq_ipc.Peer.State.{Peer, HandlerFunc, Outcome, called}
use zmq_ipc.Nng.{msg_alloc, sendmsg}
use zmq_ipc.Peer.Messages.{request_buffer}
use zmq_ipc.Peer.Pending.{generate_request_id, register_pending, make_promise}
use zmq_ipc.Peer.Receive.{Received}
use zmq_ipc.Peer.Call.{non_empty}
use zmq_ipc.Network.{
  Offers, Ask, Caller, idle, waiting, Move, takes, allocates, registers, sends, Side, dialling,
  listening, other, put, Half, World, moves, Run, here, later,
}
use zmq_ipc.Network.Invariant.{Fits}
use zmq_ipc.Network.Invariant.Reached.{IsStart, Run-Inv}
use zmq_ipc.Network.Answered.{Answers, calls-Answers}
use zmq_ipc.Network.Peers.{replies, replies-Replies}

put-same : (w : World) (x : Side) (h : Half) → put w x h x ≡ h
put-same w dialling h = refl
put-same w listening h = refl

put-other : (w : World) (x : Side) (h : Half) → put w x h (other x) ≡ w (other x)
put-other w dialling h = refl
put-other w listening h = refl

module _ (fb : FlatBuffers) (a : Ask) where
  -- the peer of a thread that waits and has done nothing else
  abbrev asked : Peer → Peer
  asked s =
      let i = (generate_request_id s).0 in
      let s2 = called (msg_alloc 0 0) (generate_request_id s).1 in
      let (p, s3) = make_promise s2 in
      called (sendmsg 0 (request_buffer fb i a.method_name a.req_buf) 0) (register_pending i p s3)

  asked-pending :
      (s : Peer) → find s.next_request_id (asked s).pending_requests ≡ some s.next_promise
  unfolding generate_request_id make_promise register_pending
  asked-pending s = rw (
    find-assign s.next_request_id s.next_request_id s.next_promise s.pending_requests,
    ==-refl s.next_request_id,
  )

module _ {fb : FlatBuffers} {ways : Side → Received → ℕ → List ℕ → List ℕ → Peer → Outcome Peer}
    {methods : Side → Offers} {asks : Side → ℕ → Ask} where
  run_append :
      {u v w : World}
      → Run fb ways methods asks u v
      → Run fb ways methods asks v w
      → Run fb ways methods asks u w
  run_append r here = r
  run_append r (later q st) = later (run_append r q) st

module _ (fb : FlatBuffers) (ways : Side → Received → ℕ → List ℕ → List ℕ → Peer → Outcome Peer)
    (methods : Side → Offers) (asks : Side → ℕ → Ask) (x : Side) (k : ℕ) (v : World) where
  -- Thread `k` of side `x` has come from `v` to `c`, and its peer to `t`, and nothing else has happened.
  record Come (c : Caller) (t : Peer) : Type 0 where
    now : World
    run : Run fb ways methods asks v now
    stands : (now x).caller k ≡ c
    peer : (now x).peer ≡ t
    others : (j : ℕ) → k ≢ j → (now x).caller j ≡ (v x).caller j
    far : now (other x) ≡ v (other x)

  go_on : {b c : Caller} {s t : Peer} → Come b s → Move fb (asks x k) b s c t → Come c t
  go_on {b} {c} {s} {t} y mv =
      let moved : Half = record {
        caller = set_at (y.now x).caller k c;
        peer = t;
        armed = (y.now x).armed;
      } in
      let is = put-same y.now x moved in
      record {
        now = put y.now x moved;
        run = later y.run (
            moves x k (
              subst (λ d. Move fb (asks x k) d (y.now x).peer c t) (sym y.stands)
                (subst (λ u. Move fb (asks x k) b u c t) (sym y.peer) mv)));
        stands = ap (λ h. h.caller k) is ∙ set_at-same (y.now x).caller k c;
        peer = ap (λ h. h.peer) is;
        others = λ j ne.
            ap (λ h. h.caller j) is ∙ (set_at-other (y.now x).caller k c j ne ∙ y.others j ne);
        far = put-other y.now x moved ∙ y.far;
      }

  set_out :
      (v x).caller k ≡ idle
      → (v x).peer.next_request_id + 1 < 2 ^ 32
      → Come
          (waiting (v x).peer.next_request_id (v x).peer.next_promise)
          (asked fb (asks x k) (v x).peer)
  unfolding generate_request_id make_promise
  set_out at_rest room =
      let begun : Come idle (v x).peer = record {
        now = v;
        run = here;
        stands = at_rest;
        peer = refl;
        others = λ j ne. refl;
        far = refl;
      } in
      go_on (go_on (go_on (go_on begun (takes room)) (allocates 0)) registers) sends

module _ {fb : FlatBuffers} (laws : FlatBuffersLaws fb) {methods : Side → Offers}
    {asks : Side → ℕ → Ask} (fits : (x : Side) → Fits fb (methods (other x)) (asks x)) (x : Side)
    (k : ℕ) (h : HandlerFunc) where
  -- From every world that a run from the start reaches, a call that has not begun, of a method that the other side
  -- has, can come to its end with what the method's handler writes for its argument, or with false if that is
  -- empty, while no other thread moves: if nng takes its request, which has the next id, and the connection
  -- delivers it and then the response, a worker of the other side serves it, a worker of its own side hands over
  -- the response, and the thread wakes. Calls start on fresh peers, each of which has a worker, all messages
  -- fit into buffers, and an id is left.
  pub idle_calls-Answers :
      {w v : World}
      → IsStart methods w
      → ((y : Side) → 0 < length (w y).armed)
      → Run fb (replies fb) methods asks w v
      → (v x).caller k ≡ idle
      → (v x).peer.next_request_id + 1 < 2 ^ 32
      → find (asks x k).method_name (v (other x)).peer.method_map ≡ some h
      → Answers fb methods asks x k
          (v x).peer.next_request_id
          (non_empty (some (h (asks x k).req_buf [])))
          v
  idle_calls-Answers {w} {v} s workers r at_rest room found =
      let i = (v x).peer.next_request_id in
      let p = (v x).peer.next_promise in
      let y = set_out fb (replies fb) methods asks x k v at_rest room in
      let all = run_append r y.run in
      let pending : find i (y.now x).peer.pending_requests ≡ some p =
        ap (λ t. find i t.pending_requests) y.peer ∙ asked-pending fb (asks x k) (v x).peer in
      let a =
        calls-Answers laws fits x k i p h s workers all y.stands
          ((Run-Inv laws (replies fb) (replies-Replies fb) fits s all x).sound.waits i p pending)
          (ap (λ u. find (asks x k).method_name u.peer.method_map) y.far ∙ found) in
      record {
        last = a.last;
        run = run_append y.run a.run;
        ends = a.ends;
        others = λ j ne. a.others j ne ∙ y.others j ne;
        far = λ j. a.far j ∙ ap (λ u. u.caller j) y.far;
      }
