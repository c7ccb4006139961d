-- ===== src/Pull/Closing.antt =====
-- The end of a puller's loop: what `close` waits for, and what it leaves.
use zmq_ipc.Prelude.{
  ℕ, ◌≡◌, ◌≢◌, ◌∙◌, refl, sym, Bool, true, false, All, [], ◌⊎◌, Option, none, some, List, ◌∷◌,
  nat_beq, arith, Bool-cases, inl, inr,
}
use zmq_ipc.Nng.Sockets.{open_sockets}
use zmq_ipc.Pull.{
  Pull, Worker, Caller, close_begin, joinable, absent, testing, receiving, ended, idle, joining,
  construct, test_running, on_recv, close_socket, close_end,
}
use zmq_ipc.Pull.Steps.{
  Event, closing, received, joined, here, tested, Step, inits, starts, tests, receives, closes,
  joins, Run, later,
}
use zmq_ipc.Pull.Lifecycle.{Phase, testing-Phase, Run-Settled}

joining_ne : joining ≢ idle
joining_ne e = cc

abbrev pub is_joined : Event → Bool
is_joined joined = true
is_joined e = false

abbrev pub has_received : List Event → Bool
has_received [] = false
has_received (received rv buf ∷ es) = true
has_received (e ∷ es) = has_received es

-- `close` waits for the thread, and has called nothing since `p`.
record Blocked (p r : Pull) : Type 0 where
  waits : r.caller ≡ joining
  same_socket : r.sock_id ≡ p.sock_id
  same_calls : r.calls ≡ p.calls

test_running-Blocked : (p r : Pull) → Blocked p r → Blocked p (test_running r)
unfolding test_running
test_running-Blocked p r b = elim (Bool-cases r.running) [
  | inl q ↦
      rw q (record { waits = b.waits; same_socket = b.same_socket; same_calls = b.same_calls })
  | inr q ↦
      rw q (record { waits = b.waits; same_socket = b.same_socket; same_calls = b.same_calls })
]

on_recv-Blocked :
    (rv : ℕ) (buf : Option (List ℕ)) (p r : Pull) → Blocked p r → Blocked p (on_recv rv buf r)
unfolding on_recv
on_recv-Blocked rv none p r b = record {
  waits = b.waits;
  same_socket = b.same_socket;
  same_calls = b.same_calls;
}
on_recv-Blocked rv (some x) p r b = elim (Bool-cases (nat_beq rv 0)) [
  | inl q ↦
      rw q (record { waits = b.waits; same_socket = b.same_socket; same_calls = b.same_calls })
  | inr q ↦
      rw q (record { waits = b.waits; same_socket = b.same_socket; same_calls = b.same_calls })
]

Step-Blocked :
    {p q r : Pull} {e : Event} → Blocked p q → Step q e r → is_joined e ≡ false → Blocked p r
Step-Blocked b (inits e url i free new) h = absurd (joining_ne (sym b.waits ∙ i))
Step-Blocked b (starts i) h = absurd (joining_ne (sym b.waits ∙ i))
Step-Blocked {p} {q} b (tests t) h = test_running-Blocked p q b
Step-Blocked {p} {q} b (receives rv buf t) h = on_recv-Blocked rv buf p q b
Step-Blocked b (closes i) h = absurd (joining_ne (sym b.waits ∙ i))
Step-Blocked b (joins i t) h = cc

Run-Blocked :
    {p q r : Pull} {es : List Event}
    → Blocked p q
    → Run q es r
    → All (λ e. is_joined e ≡ false) es
    → Blocked p r
Run-Blocked b here h = b
Run-Blocked b (later r s) (h, hs) = Step-Blocked (Run-Blocked b r hs) s h

-- A thread in nng_recv stays there until it returns.
Run-receiving :
    {p q r : Pull} {es : List Event}
    → Blocked p q
    → q.worker ≡ receiving
    → Run q es r
    → All (λ e. is_joined e ≡ false) es
    → (r.worker ≡ receiving) ⊎ (has_received es ≡ true)
Run-receiving b there here h = inl there
Run-receiving b there (later r (receives rv buf t)) h = inr refl
Run-receiving b there (later r (tests t)) (h, hs) = elim (Run-receiving b there r hs) [
  | inl still ↦ cc
  | inr back ↦ inr back
]
Run-receiving b there (later r (inits e url i free new)) (h, hs) =
    absurd (joining_ne (sym (Run-Blocked b r hs).waits ∙ i))
Run-receiving b there (later r (starts i)) (h, hs) =
    absurd (joining_ne (sym (Run-Blocked b r hs).waits ∙ i))
Run-receiving b there (later r (closes i)) (h, hs) =
    absurd (joining_ne (sym (Run-Blocked b r hs).waits ∙ i))
Run-receiving b there (later r (joins i t)) (h, hs) = cc

begun-Blocked :
    {p q : Pull} {e : Event}
    → p.running ≡ true
    → p.worker ≡ receiving
    → e ≡ closing
    → Step p e q
    → Blocked p q × (q.worker ≡ receiving)
unfolding close_begin joinable
begun-Blocked running there is (closes i) =
    rw (running, there) (record { waits = refl; same_socket = refl; same_calls = refl }, refl)
begun-Blocked running there is (inits e url i free new) = cc
begun-Blocked running there is (starts i) = cc
begun-Blocked running there is (tests t) = cc
begun-Blocked running there is (receives rv buf t) = cc
begun-Blocked running there is (joins i t) = cc

-- When `close` begins while the receiving thread is in nng_recv, then until it has joined that thread, whatever
-- steps are taken, it has not returned, the socket is as it was and nng has not been called to close it, and
-- the thread is still in nng_recv unless nng_recv has returned: a receive that does not return keeps
-- `close` from returning.
pub close_blocked :
    {p q r : Pull} {es : List Event}
    → p.running ≡ true
    → p.worker ≡ receiving
    → Step p closing q
    → Run q es r
    → All (λ e. is_joined e ≡ false) es
    → (r.caller ≡ joining)
      × (r.sock_id ≡ p.sock_id)
      × (r.calls ≡ p.calls)
      × ((r.worker ≡ receiving) ⊎ (has_received es ≡ true))
close_blocked running there begins run before =
    let (begun, still) = begun-Blocked running there refl begins in
    let b = Run-Blocked begun run before in
    (b.waits, b.same_socket, b.same_calls, Run-receiving begun still run before)

on_recv-worker :
    (rv : ℕ) (buf : Option (List ℕ)) (p : Pull)
    → ((on_recv rv buf p).worker ≡ testing) × ((on_recv rv buf p).caller ≡ p.caller)
unfolding on_recv
on_recv-worker rv none p = (refl, refl)
on_recv-worker rv (some buf) p = elim (Bool-cases (nat_beq rv 0)) [
  | inl q ↦ rw q (refl, refl)
  | inr q ↦ rw q (refl, refl)
]

test_running-worker :
    (p : Pull)
    → p.running ≡ false
    → ((test_running p).worker ≡ ended) × ((test_running p).caller ≡ p.caller)
unfolding test_running
test_running-worker p r = rw r (refl, refl)

close_end-worker : (p : Pull) → ((close_end p).worker ≡ absent) × ((close_end p).sock_id ≡ 0)
unfolding close_end close_socket
close_end-worker p = elim (Bool-cases (nat_beq p.sock_id 0)) [
  | inl q ↦ rw q (refl, ground arith)
  | inr q ↦ rw q (refl, refl)
]

testing_joining :
    {r : Bool} {c : Caller} {w : Worker} → Phase r c w → w ≡ testing → c ≡ joining → r ≡ false
testing_joining f e d = elim (testing-Phase f e) [
  | inl (r, i) ↦ absurd (joining_ne (sym d ∙ i))
  | inr (r, i) ↦ r
]

-- When nng_recv returns while `close` waits, in a run as in `Step`, whatever it returns, the loop and `close` end in two more steps,
-- and no thread and no socket is left.
pub close-finishes :
    {es : List Event} {p : Pull} (rv : ℕ) (buf : Option (List ℕ))
    → Run construct es p
    → p.caller ≡ joining
    → p.worker ≡ receiving
    → (q : Pull) × Run construct (joined ∷ tested ∷ received rv buf ∷ es) q
      × (q.worker ≡ absent)
      × (q.sock_id ≡ 0)
      × (open_sockets q.calls ≡ some 0)
close-finishes {p} rv buf r c w =
    let (w1, c1) = on_recv-worker rv buf p in
    let r1 = later r (receives rv buf w) in
    let still = testing_joining (Run-Settled r1).0 w1 (c1 ∙ c) in
    let (w2, c2) = test_running-worker (on_recv rv buf p) still in
    let r3 = later (later r1 (tests w1)) (joins (c2 ∙ c1 ∙ c) w2) in
    let (w3, s3) = close_end-worker (test_running (on_recv rv buf p)) in
    let kept = (Run-Settled r3).1 in (_, r3, w3, s3, kept ∙ rw s3 refl)
