-- ===== src/Stream/Delivery.antt =====
-- What the callback of the puller is given of what the pusher sends.
use zmq_ipc.Prelude.{
  ℕ, zero, suc, ◌+◌, ◌≡◌, ◌≢◌, ◌∙◌, ◌⊎◌, refl, sym, subst, ap, false, Option, none, some, List, [],
  ◌∷◌, ◌++◌, nat_beq, arith, Bool-cases, inl, inr, length, length-append,
}
use mathlib.Core.List.{append_assoc, Sublistᴰ}
use zmq_ipc.Push
use zmq_ipc.Push.{Push, init, send_data, close_push}
use zmq_ipc.Push.Socket.{Use, inits, sends, closes, use_once}
use zmq_ipc.Pull
use zmq_ipc.Pull.{
  Pull, Opening, start_recv_loop, test_running, on_recv, close_begin, close_end, close_socket,
  joinable,
}
use zmq_ipc.Pull.Steps.{Event}
use zmq_ipc.Pull.Lifecycle.{close_begin_quiet}
use zmq_ipc.Stream.{
  Stream, on_wire, IsQuiet, Step, uses, loses, turns, receives, fails, Run, here, later, sent,
}

-- `kept` is what is on the wire or was delivered: all that was sent, in order, but for what was lost.
pub record Accounts (kept all : List (List ℕ)) (lost : ℕ) : Type 0 where
  pub in_order : Sublistᴰ kept all
  pub in_number : length kept + lost ≡ length all

pub record Delivers (w : Stream) : Type 0 where
  pub accounts : Accounts (w.wire ++ w.pull.delivered) (sent w.push.calls) w.lost
  pub freed : w.pull.freed ≡ length w.pull.delivered

-- Without the message `m`, which may stand anywhere.
dropped :
    (newer older all : List (List ℕ)) (m : List ℕ)
    → Sublistᴰ (newer ++ (m ∷ older)) all
    → Sublistᴰ (newer ++ older) all
dropped [] older [] m s = elim s [ ]
dropped (n ∷ newer) older [] m s = elim s [ ]
dropped [] older (a ∷ all) m (Sublistᴰ.cons s) = Sublistᴰ.cons (dropped [] older all m s)
dropped [] older (a ∷ all) m (Sublistᴰ.cons-cons e s) = Sublistᴰ.cons s
dropped (n ∷ newer) older (a ∷ all) m (Sublistᴰ.cons s) =
    Sublistᴰ.cons (dropped (n ∷ newer) older all m s)
dropped (n ∷ newer) older (a ∷ all) m (Sublistᴰ.cons-cons e s) =
    Sublistᴰ.cons-cons e (dropped newer older all m s)

lost_one :
    (newer older all : List (List ℕ)) (m : List ℕ) (lost : ℕ)
    → Accounts (newer ++ (m ∷ older)) all lost
    → Accounts (newer ++ older) all (suc lost)
lost_one newer older all m lost h = record {
  in_order = dropped newer older all m h.in_order;
  in_number =
      omega
        (arith, h.in_number, length-append {0} newer (m ∷ older), length-append {0} newer older);
}

-- The calls of the pusher, and the wire, after one more use.
sent-use_once :
    (u : Use) (p : Push) (kept ms : List (List ℕ)) (lost : ℕ)
    → Accounts (ms ++ kept) (sent p.calls) lost
    → Accounts (on_wire u ms ++ kept) (sent (use_once u p).calls) lost
unfolding use_once init send_data close_push sent
sent-use_once (inits e url) p kept ms lost h = elim (Bool-cases (nat_beq e.opening 0)) [
  | inl q ↦ rw (q, sent) h
  | inr q ↦ rw (q, sent) h
]
sent-use_once (sends zero bytes) p kept ms lost h = record {
  in_order = Sublistᴰ.cons-cons refl h.in_order;
  in_number = omega (arith, h.in_number);
}
sent-use_once (sends (suc rv) bytes) p kept ms lost h = h
sent-use_once closes p kept ms lost h = elim (Bool-cases (nat_beq p.sock_id 0)) [
  | inl q ↦ rw (q, sent) h
  | inr q ↦ rw (q, sent) h
]

-- What a step of the puller leaves as it was.
abbrev Same : Pull → Pull → Type 0
Same p q = (q.delivered ≡ p.delivered) × (q.freed ≡ p.freed)

close_socket-Same : (p : Pull) → Same p (close_socket p)
unfolding close_socket
close_socket-Same p = elim (Bool-cases (nat_beq p.sock_id 0)) [
  | inl q ↦ rw q (refl, refl)
  | inr q ↦ rw q (refl, refl)
]

close_begin-Same : (p : Pull) → Same p (close_begin p)
unfolding close_begin
close_begin-Same p = elim (Bool-cases p.running) [
  | inl r ↦ elim (Bool-cases (joinable p.worker)) [
    | inl j ↦ rw (r, j) (refl, refl)
    | inr j ↦ rw (r, j) (close_socket-Same (record p { running = false }))
  ]
  | inr r ↦ subst (Same p) (sym (close_begin_quiet p r)) (close_socket-Same p)
]

Step-Same : {p q : Pull} {e : Event} → IsQuiet e → Pull.Steps.Step p e q → Same p q
unfolding start_recv_loop test_running close_end Pull.init
Step-Same k (Pull.Steps.inits e url c free new) = elim (Bool-cases (nat_beq e.opening 0)) [
  | inl q ↦ rw q (refl, refl)
  | inr q ↦ rw q (refl, refl)
]
Step-Same {p} k (Pull.Steps.starts c) = elim (Bool-cases p.running) [
  | inl r ↦ rw r (refl, refl)
  | inr r ↦ rw r (refl, refl)
]
Step-Same {p} k (Pull.Steps.tests w) = elim (Bool-cases p.running) [
  | inl r ↦ rw r (refl, refl)
  | inr r ↦ rw r (refl, refl)
]
Step-Same k (Pull.Steps.receives rv buf w) = absurd k
Step-Same {p} k (Pull.Steps.closes c) = close_begin-Same p
Step-Same {p} k (Pull.Steps.joins c w) = close_socket-Same (record p { worker = Pull.absent })

failed-Same :
    (rv : ℕ) (buf : Option (List ℕ)) (p : Pull)
    → (rv ≢ 0) ⊎ (buf ≡ none)
    → Same p (on_recv rv buf p)
unfolding on_recv
failed-Same rv none p h = (refl, refl)
failed-Same rv (some b) p (inl ne) = elim (Bool-cases (nat_beq rv 0)) [
  | inl q ↦ absurd (ground arith)
  | inr q ↦ rw q (refl, refl)
]
failed-Same rv (some b) p (inr e) = cc

Same-Delivers :
    (w : Stream) (q : Pull) → Same w.pull q → Delivers w → Delivers (record w { pull = q })
Same-Delivers w q (same, freed) h = record {
  accounts = rw same h.accounts;
  freed = rw (same, freed) h.freed;
}

-- the wire, taken apart at the message `m`
at_wire :
    {wire : List (List ℕ)} (newer : List (List ℕ)) (m : List ℕ) (older kept all : List (List ℕ))
    (lost : ℕ)
    → wire ≡ newer ++ (m ∷ older)
    → Accounts (wire ++ kept) all lost
    → Accounts (newer ++ (m ∷ (older ++ kept))) all lost
at_wire newer m older kept all lost e h =
    subst (λ ms. Accounts ms all lost)
      (ap (λ ms. ms ++ kept) e ∙ append_assoc newer (m ∷ older) kept) h

Step-Delivers : {w v : Stream} → Step w v → Delivers w → Delivers v
unfolding on_recv
Step-Delivers {w} (uses u) h = record {
  accounts = sent-use_once u w.push w.pull.delivered w.wire w.lost h.accounts;
  freed = h.freed;
}
Step-Delivers {w} (loses newer older m e) h = record {
  accounts =
      subst (λ ms. Accounts ms (sent w.push.calls) (suc w.lost))
        (sym (append_assoc newer older w.pull.delivered))
        (lost_one newer (older ++ w.pull.delivered) _ m w.lost
          (at_wire newer m older w.pull.delivered _ w.lost e h.accounts));
  freed = h.freed;
}
Step-Delivers {w} (turns {q} k s) h = Same-Delivers w q (Step-Same k s) h
Step-Delivers {w} (receives newer m r e) h = record {
  accounts = at_wire newer m [] w.pull.delivered _ w.lost e h.accounts;
  freed = ap suc h.freed;
}
Step-Delivers {w} (fails rv buf r k) h = Same-Delivers w _ (failed-Same rv buf w.pull k) h

-- both sides new, and nothing on the wire
abbrev pub begin : Stream
begin = record { push = Push.construct; wire = []; lost = 0; pull = Pull.construct }

-- In any order of sends, receives, closes and losses, what the callback of a puller was given, with what is
-- still on its way, is in order what the pusher sent with success, but for as many messages as were lost; and
-- each buffer that the callback was given was freed once. Both sides start new, and the connection
-- does not reorder or repeat messages.
pub Run-Delivers : {w : Stream} → Run begin w → Delivers w
unfolding Push.construct Pull.construct sent
Run-Delivers here = record {
  accounts = record { in_order = Sublistᴰ.slnil; in_number = refl };
  freed = refl;
}
Run-Delivers (later r s) = Step-Delivers s (Run-Delivers r)
