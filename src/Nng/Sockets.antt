-- ===== src/Nng/Sockets.antt =====
-- The rule of nng's manual on sockets, for a component that keeps one: it is closed once.
use zmq_ipc.Prelude.{
  ◌>>=◌, ℕ, zero, suc, ◌≡◌, refl, Option, none, some, List, [], ◌∷◌, nat_beq, arith, if◌then◌else◌,
}
use zmq_ipc.Nng.{NngCall, pair0_open, push0_open, pull0_open, close}

abbrev pub closed : ℕ → Option ℕ
closed zero = none
closed (suc n) = some n

-- How many sockets are open after one more call; `none` for closing one when none is.
unfoldable pub after_call : NngCall → ℕ → Option ℕ
after_call (pair0_open zero) n = some (suc n)
after_call (push0_open zero) n = some (suc n)
after_call (pull0_open zero) n = some (suc n)
after_call close n = closed n
after_call _ n = some n

-- After a history, the latest call first.
unfoldable pub open_sockets : List NngCall → Option ℕ
unfolding after_call
open_sockets [] = some 0
open_sockets (c ∷ cs) = open_sockets cs >>= after_call c

pub after_call-push0_open :
    (rv n : ℕ) → after_call (push0_open rv) n ≡ some (if nat_beq rv 0 then suc n else n)
unfolding after_call
after_call-push0_open zero n = refl
after_call-push0_open (suc rv) n = ground arith

pub after_call-pull0_open :
    (rv n : ℕ) → after_call (pull0_open rv) n ≡ some (if nat_beq rv 0 then suc n else n)
unfolding after_call
after_call-pull0_open zero n = refl
after_call-pull0_open (suc rv) n = ground arith

pub after_call-pair0_open :
    (rv n : ℕ) → after_call (pair0_open rv) n ≡ some (if nat_beq rv 0 then suc n else n)
unfolding after_call
after_call-pair0_open zero n = refl
after_call-pair0_open (suc rv) n = ground arith
