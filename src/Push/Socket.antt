-- ===== src/Push/Socket.antt =====
-- The socket of a pusher over its life.
use zmq_ipc.Prelude.{
  ℕ, suc, ◌+◌, ◌≡◌, ◌≢◌, ◌∙◌, refl, false, some, List, [], ◌∷◌, nat_beq, arith, Bool-cases, inl,
  inr, if◌then◌else◌,
}
use zmq_ipc.Nng.Sockets.{open_sockets, after_call, after_call-push0_open}
use zmq_ipc.Push.{Push, Opening, construct, init, send_data, close_push}

-- The socket that the id names is the only one that is open, with `n` others that were lost.
abbrev pub Keeps : ℕ → Push → Type 0
Keeps n p = open_sockets p.calls ≡ some (n + (if nat_beq p.sock_id 0 then 0 else 1))

-- A call of the class by its user.
pub data Use : Type 0 where
  inits : Opening → List ℕ → Use
  sends : ℕ → List ℕ → Use
  closes : Use

unfoldable pub use_once : Use → Push → Push
unfolding init send_data close_push
use_once (inits e url) p = (init e url p).1
use_once (sends rv bytes) p = (send_data rv bytes p).1
use_once closes p = close_push p

unfoldable pub use_all : List Use → Push → Push
unfolding use_once
use_all [] p = p
use_all (u ∷ us) p = use_all us (use_once u p)

-- `init` is called only while there is no socket, and a socket that nng opens has an id that is not 0.
abbrev pub CarefulOnce : Use → Push → Type 0
CarefulOnce (inits e url) p = (p.sock_id ≡ 0) × (e.new_id ≢ 0)
CarefulOnce (sends rv bytes) p = Unit
CarefulOnce closes p = Unit

abbrev pub Careful : List Use → Push → Type 0
Careful [] p = Unit
Careful (u ∷ us) p = CarefulOnce u p × Careful us (use_once u p)

close_push-Keeps : (n : ℕ) (p : Push) → Keeps n p → Keeps n (close_push p)
unfolding close_push open_sockets after_call
close_push-Keeps n p h = ground arith

after_init-Keeps :
    (n : ℕ) (e : Opening) (url : List ℕ) (p : Push)
    → e.new_id ≢ 0
    → p.sock_id ≡ 0
    → Keeps n p
    → Keeps n (init e url p).1
unfolding init open_sockets after_call
after_init-Keeps n e url p new idle h =
    let bare : open_sockets p.calls ≡ some n = ground arith in
    elim (Bool-cases (nat_beq e.opening 0)) [
      | inl q ↦ let z : e.opening ≡ 0 = ground arith in rw (z, bare) (ground arith)
      | inr q ↦ rw (q, bare) (after_call-push0_open e.opening n ∙ rw q (ground arith))
    ]

send_data-Keeps :
    (n rv : ℕ) (bytes : List ℕ) (p : Push) → Keeps n p → Keeps n (send_data rv bytes p).1
unfolding send_data open_sockets after_call
send_data-Keeps n rv bytes p h = rw h refl

use_all-Keeps :
    (n : ℕ) (us : List Use) (p : Push) → Careful us p → Keeps n p → Keeps n (use_all us p)
unfolding use_all use_once
use_all-Keeps n [] p c h = h
use_all-Keeps n (inits e url ∷ us) p ((idle, new), c) h =
    use_all-Keeps n us _ c (after_init-Keeps n e url p new idle h)
use_all-Keeps n (sends rv bytes ∷ us) p (_, c) h =
    use_all-Keeps n us _ c (send_data-Keeps n rv bytes p h)
use_all-Keeps n (closes ∷ us) p (_, c) h = use_all-Keeps n us _ c (close_push-Keeps n p h)

closed-Keeps : (n : ℕ) (p : Push) → Keeps n p → open_sockets (close_push p).calls ≡ some n
unfolding close_push open_sockets after_call
closed-Keeps n p h = ground arith

-- A pusher whose `init` is called only while it has no socket, in any order with sends and closes and
-- with any results, has closed every socket that it opened, once, when its destructor has run.
pub use_all-closed :
    (us : List Use)
    → Careful us construct
    → open_sockets (close_push (use_all us construct)).calls ≡ some 0
use_all-closed us c =
    closed-Keeps 0 _ (use_all-Keeps 0 us construct c (unfold construct open_sockets in refl))

reopened :
    (n : ℕ) (e : Opening) (url : List ℕ) (p : Push)
    → e.opening ≡ 0
    → e.new_id ≢ 0
    → p.sock_id ≢ 0
    → Keeps n p
    → Keeps (suc n) (init e url p).1
unfolding init open_sockets after_call
reopened n e url p z new held h =
    let full : open_sockets p.calls ≡ some (suc n) = ground arith in rw (z, full) (ground arith)

-- An `init` that fails because the dial fails returns false and leaves its socket open; when `init` is
-- called again, and nng opens another socket, the first one is still open after the destructor has run.
pub init-init_leak :
    (e f : Opening) (url : List ℕ)
    → e.opening ≡ 0
    → e.new_id ≢ 0
    → e.connecting ≢ 0
    → f.opening ≡ 0
    → f.new_id ≢ 0
    → ((init e url construct).0 ≡ false)
      × (open_sockets (close_push (init f url (init e url construct).1).1).calls ≡ some 1)
init-init_leak e f url z new refused z' new' =
    let first : Keeps 0 (init e url construct).1 =
      after_init-Keeps 0 e url construct new (unfold construct in refl)
        (unfold construct open_sockets in refl) in
    (
      unfold init in rw z (ground arith),
      closed-Keeps 1 (init f url (init e url construct).1).1
          (reopened 0 f url (init e url construct).1 z' new' (unfold init in rw z new) first),
    )
