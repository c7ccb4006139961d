-- ===== src/Network/Calls.antt =====
-- The function `call` is a thread of the network: what it does between its gaps are the thread's moves.
use zmq_ipc.Prelude.{
  ℕ, ◌+◌, ◌^◌, ◌<◌, ◌≡◌, ◌≢◌, refl, subst, inl, inr, Bool-cases, Option, none, some, List, arith,
  nat_eq, nat_beq,
}
use zmq_ipc.Prelude.Dict.{find}
use zmq_ipc.FlatBuffers.{FlatBuffers}
use zmq_ipc.Nng.{msg_alloc, sendmsg}
use zmq_ipc.Peer.State.{
  Peer, Shared, unset, value, broken, Outcome, done, called, EndsIn-done, done_of_bind,
}
use zmq_ipc.Peer.Messages.{request_buffer}
use zmq_ipc.Peer.Pending.{generate_request_id, make_promise, erase_pending}
use zmq_ipc.Peer.Call.{
  Gap, generated, registered, send_failed, sent, timed_out, Calling, non_empty, abandon, end_wait,
  send_request, await_response, call,
}
use zmq_ipc.Network.{
  Ask, Caller, idle, allocated, waiting, leaving, over, Move, takes, allocates, has_no_memory,
  registers, sends, fails, wakes, expires, erases,
}

-- Moves of one thread, with what the others do in the gaps between.
data Trace (fb : FlatBuffers) (a : Ask) (others : Gap → Peer → Outcome Peer)
    : Caller → Peer → Caller → Peer → Type 0 where
  stops : {c : Caller} {s : Peer} → Trace fb a others c s c s
  moves :
      {s : Peer} {c d e : Caller} {t u : Peer}
      → Move fb a c s d t
      → Trace fb a others d t e u
      → Trace fb a others c s e u
  yields :
      {c e : Caller} {s t u : Peer} (g : Gap)
      → others g s ≡ done t
      → Trace fb a others c t e u
      → Trace fb a others c s e u

module _ (fb : FlatBuffers) (a : Ask) (e : Calling) (i : ℕ) (r : Option (List ℕ)) (t : Peer) where
  -- the thread goes from `c` to the end of the call
  abbrev Ends : Caller → Peer → Type 0
  Ends c s = Trace fb a e.others c s (over i r) t

  -- what a call that is over gives
  abbrev gives : Option (List ℕ) → Peer → Outcome (Option (List ℕ) × Peer)
  gives x s = done (x, s)

  Ends-over : (x : Option (List ℕ)) (s : Peer) → gives x s ≡ gives r t → Ends (over i x) s
  Ends-over x s q =
      EndsIn-done (λ y. Trace fb a e.others (over i x) s (over i y.0) y.1) (done (x, s)) (r, t)
        stops q

  abandon-Ends : (g : Gap) (s : Peer) → abandon (e.others g) i s ≡ gives r t → Ends (leaving i) s
  unfolding abandon
  abandon-Ends g s q =
      let (u, run, last) =
        done_of_bind (λ v. gives none (erase_pending i v)) (e.others g s) (r, t) q in
      yields g run (moves erases (Ends-over none (erase_pending i u) last))

  end_wait-Ends :
      (p : ℕ) (x : Option Shared) (s : Peer)
      → find p s.promises ≡ x
      → end_wait e i x s ≡ gives r t
      → Ends (waiting i p) s
  unfolding end_wait
  end_wait-Ends p (some unset) s w q = moves (expires w) (abandon-Ends timed_out s q)
  end_wait-Ends p (some (value y)) s w q = moves (wakes w) (Ends-over (non_empty y) s q)
  end_wait-Ends p (some broken) s w q = cc
  end_wait-Ends p none s w q = cc

  send_request-Ends :
      (p : ℕ) (s : Peer)
      → send_request fb e i p (request_buffer fb i a.method_name a.req_buf) s ≡ gives r t
      → Ends (Caller.registered i e.msg p) s
  unfolding send_request
  send_request-Ends p s q =
      let body : List ℕ = request_buffer fb i a.method_name a.req_buf in
      elim (Bool-cases (nat_beq e.sending 0)) [
        | inl ok ↦
            let z : e.sending ≡ 0 = ground arith in
            let (u, run, last) =
              done_of_bind (λ u. end_wait e i (find p u.promises) u) _ (r, t) (rw ok at q) in
            moves sends (
              yields sent
                (subst (λ n. e.others sent (called (sendmsg e.msg body n) s) ≡ done u) z run)
                (end_wait-Ends p (find p u.promises) u refl last))
        | inr ko ↦
            let nz : e.sending ≢ 0 = λ z. ground arith in
            moves (fails e.sending nz) (abandon-Ends send_failed _ (rw ko at q))
      ]

  await_response-Ends :
      (s : Peer)
      → await_response fb e i (request_buffer fb i a.method_name a.req_buf) s ≡ gives r t
      → Ends (allocated i e.msg) s
  unfolding await_response
  await_response-Ends s q =
      let (u, run, last) = done_of_bind (send_request fb e i (make_promise s).0 _) _ (r, t) q in
      moves registers (yields registered run (send_request-Ends (make_promise s).0 u last))

-- Whatever the results of nng and whatever the others do, a call that ends is a run of one thread: its moves, and
-- what the others do in the gaps between them, lead from the state before the call to that after it
-- and to the bytes that it gives. The counter of ids does not wrap.
call-Trace :
    (fb : FlatBuffers) (a : Ask) (e : Calling) (s t : Peer) (r : Option (List ℕ))
    → s.next_request_id + 1 < 2 ^ 32
    → call fb e a.method_name a.req_buf s ≡ done (r, t)
    → Trace fb a e.others idle s (over s.next_request_id r) t
unfolding call generate_request_id
call-Trace fb a e s t r room q =
    let i : ℕ = s.next_request_id in
    let u : Peer = (generate_request_id s).1 in
    elim (Bool-cases (nat_beq e.alloc 0)) [
      | inl ok ↦
          let z : e.alloc ≡ 0 = ground arith in
          let (v, run, last) =
            done_of_bind (await_response fb e i (request_buffer fb i a.method_name a.req_buf)) _
              (r, t) (rw ok at q) in
          moves (takes room) (
            moves (allocates e.msg) (
              yields generated
                (subst (λ n. e.others generated (called (msg_alloc e.msg n) u) ≡ done v) z run)
                (await_response-Ends fb a e i r t v last)))
      | inr ko ↦
          let nz : e.alloc ≢ 0 = λ z. ground arith in
          moves (takes room)
            (moves (has_no_memory e.msg e.alloc nz) (Ends-over fb a e i r t none _ (rw ko at q)))
    ]
