-- ===== src/Pull/Lifecycle.antt =====
-- The thread and the socket of a puller over its life.
use zmq_ipc.Prelude.{
  ℕ, ◌+◌, ◌≡◌, ◌≢◌, ◌⊎◌, ◌∙◌, refl, sym, subst, Bool, true, false, Option, none, some, List,
  nat_beq, arith, Bool-cases, inl, inr, if◌then◌else◌,
}
use zmq_ipc.Nng.Sockets.{open_sockets, after_call, after_call-pull0_open}
use zmq_ipc.Pull.{
  Pull, Worker, Caller, absent, testing, receiving, ended, idle, joining, Opening, construct, init,
  start_recv_loop, test_running, on_recv, joinable, close_socket, close_begin, close_end,
}
use zmq_ipc.Pull.Steps.{
  Event, Step, inits, starts, tests, receives, closes, joins, Run, here, later,
}

-- No thread; a loop that goes on; or a loop that ends while `close` waits for it.
pub data Phase : Bool → Caller → Worker → Type 0 where
  quiet : Phase false idle absent
  looks : Phase true idle testing
  waits : Phase true idle receiving
  last_look : Phase false joining testing
  last_wait : Phase false joining receiving
  over : Phase false joining ended

-- `calls` has closed every socket that it opened, but the one that `sock_id` names.
abbrev pub Keeps : ℕ → Pull → Type 0
Keeps n p = open_sockets p.calls ≡ some (n + (if nat_beq p.sock_id 0 then 0 else 1))

abbrev pub Settled : Pull → Type 0
Settled p = Phase p.running p.caller p.worker × Keeps 0 p

init-Keeps :
    (e : Opening) (url : List ℕ) (p : Pull)
    → e.new_id ≢ 0
    → p.sock_id ≡ 0
    → Keeps 0 p
    → Keeps 0 (init e url p).1
unfolding init open_sockets after_call
init-Keeps e url p new free h =
    let bare : open_sockets p.calls ≡ some 0 = ground arith in
    elim (Bool-cases (nat_beq e.opening 0)) [
      | inl q ↦ let z : e.opening ≡ 0 = ground arith in rw (z, bare) (ground arith)
      | inr q ↦ rw (q, bare) (after_call-pull0_open e.opening 0 ∙ rw q (ground arith))
    ]

close_socket-Keeps : (p : Pull) → Keeps 0 p → Keeps 0 (close_socket p)
unfolding close_socket open_sockets after_call
close_socket-Keeps p h = ground arith

idle-Phase :
    {r : Bool} {c : Caller} {w : Worker}
    → Phase r c w
    → c ≡ idle
    → ((r ≡ false) × (w ≡ absent)) ⊎ ((r ≡ true) × (joinable w ≡ true))
unfolding joinable
idle-Phase quiet e = inl (refl, refl)
idle-Phase looks e = inr (refl, refl)
idle-Phase waits e = inr (refl, refl)
idle-Phase last_look e = cc
idle-Phase last_wait e = cc
idle-Phase over e = cc

pub testing-Phase :
    {r : Bool} {c : Caller} {w : Worker}
    → Phase r c w
    → w ≡ testing
    → ((r ≡ true) × (c ≡ idle)) ⊎ ((r ≡ false) × (c ≡ joining))
testing-Phase quiet e = cc
testing-Phase looks e = inl (refl, refl)
testing-Phase waits e = cc
testing-Phase last_look e = inr (refl, refl)
testing-Phase last_wait e = cc
testing-Phase over e = cc

ended-Phase :
    {r : Bool} {c : Caller} {w : Worker} → Phase r c w → w ≡ ended → (r ≡ false) × (c ≡ joining)
ended-Phase quiet e = cc
ended-Phase looks e = cc
ended-Phase waits e = cc
ended-Phase last_look e = cc
ended-Phase last_wait e = cc
ended-Phase over e = (refl, refl)

received-Phase :
    {r : Bool} {c : Caller} {w : Worker} → Phase r c w → w ≡ receiving → Phase r c testing
received-Phase quiet e = cc
received-Phase looks e = cc
received-Phase waits e = looks
received-Phase last_look e = cc
received-Phase last_wait e = last_look
received-Phase over e = cc

closing-Phase : {c : Caller} {w : Worker} → Phase true c w → Phase false joining w
closing-Phase looks = last_look
closing-Phase waits = last_wait

init-Phase :
    (e : Opening) (url : List ℕ) (p : Pull)
    → Phase p.running p.caller p.worker
    → Phase (init e url p).1.running (init e url p).1.caller (init e url p).1.worker
unfolding init
init-Phase e url p h = elim (Bool-cases (nat_beq e.opening 0)) [ inl q ↦ rw q h | inr q ↦ rw q h ]

start_recv_loop-Settled : (p : Pull) → p.caller ≡ idle → Settled p → Settled (start_recv_loop p)
unfolding start_recv_loop
start_recv_loop-Settled p c (f, k) = elim (idle-Phase f c) [
  | inl (r, w) ↦ (rw (r, c) looks, rw r k)
  | inr (r, w) ↦ (rw r (subst (λ b. Phase b p.caller p.worker) r f), rw r k)
]

test_running-Settled : (p : Pull) → p.worker ≡ testing → Settled p → Settled (test_running p)
unfolding test_running
test_running-Settled p w (f, k) = elim (testing-Phase f w) [
  | inl (r, c) ↦ (rw (r, c) waits, rw r k)
  | inr (r, c) ↦ (rw (r, c) over, rw r k)
]

on_recv-Settled :
    (rv : ℕ) (buf : Option (List ℕ)) (p : Pull)
    → p.worker ≡ receiving
    → Settled p
    → Settled (on_recv rv buf p)
unfolding on_recv
on_recv-Settled rv none p w (f, k) = (received-Phase f w, k)
on_recv-Settled rv (some buf) p w (f, k) = elim (Bool-cases (nat_beq rv 0)) [
  | inl q ↦ rw q (received-Phase f w, k)
  | inr q ↦ rw q (received-Phase f w, k)
]

closed_socket :
    (p : Pull) → p.running ≡ false → p.worker ≡ absent → Keeps 0 p → Settled (close_socket p)
unfolding close_socket
closed_socket p r w k = elim (Bool-cases (nat_beq p.sock_id 0)) [
  | inl q ↦ (rw (q, r, w) quiet, close_socket-Keeps p k)
  | inr q ↦ (rw (q, r, w) quiet, close_socket-Keeps p k)
]

pub close_begin_quiet : (p : Pull) → p.running ≡ false → close_begin p ≡ close_socket p
unfolding close_begin close_socket
close_begin_quiet p r = rw r refl

close_begin-Settled : (p : Pull) → p.caller ≡ idle → Settled p → Settled (close_begin p)
unfolding close_begin
close_begin-Settled p c (f, k) = elim (idle-Phase f c) [
  | inl (r, w) ↦ subst Settled (sym (close_begin_quiet p r)) (closed_socket p r w k)
  | inr (r, w) ↦ rw (r, w) (closing-Phase (subst (λ b. Phase b p.caller p.worker) r f), k)
]

close_end-Settled : (p : Pull) → p.worker ≡ ended → Settled p → Settled (close_end p)
unfolding close_end
close_end-Settled p w (f, k) =
    closed_socket (record p { worker = absent }) (ended-Phase f w).0 refl k

Step-Settled : {p q : Pull} {e : Event} → Settled p → Step p e q → Settled q
Step-Settled {p} (f, k) (inits e url c free new) =
    (init-Phase e url p f, init-Keeps e url p new free k)
Step-Settled {p} h (starts c) = start_recv_loop-Settled p c h
Step-Settled {p} h (tests w) = test_running-Settled p w h
Step-Settled {p} h (receives rv buf w) = on_recv-Settled rv buf p w h
Step-Settled {p} h (closes c) = close_begin-Settled p c h
Step-Settled {p} h (joins c w) = close_end-Settled p w h

-- However the user's thread and the receiving thread take turns, where `init` is called only without a
-- socket and nng gives a new socket an id that is not 0: no thread exists while neither a loop
-- runs nor `close` waits; while `close` waits, `running` is false; and the puller has closed, once, every
-- socket that it opened but the one that its id names.
pub Run-Settled : {es : List Event} {p : Pull} → Run construct es p → Settled p
Run-Settled here = unfold construct open_sockets in (quiet, refl)
Run-Settled (later r s) = Step-Settled (Run-Settled r) s
