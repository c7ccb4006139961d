-- ===== src/Nng/Aios.antt =====
-- The rule of nng's manual on aios: one that was allocated is used until it is freed, once, and is stopped before that.
use zmq_ipc.Prelude.{
  ◌>>=◌, Bool, true, false, ℕ, zero, suc, ◌+◌, ◌≡◌, Option, none, some, List, [], ◌∷◌, ◌++◌,
  nat_beq, arith, if◌then◌else◌,
}
use zmq_ipc.Nng.{NngCall, aio_alloc, aio_stop, aio_free, recv_aio}

-- a call that needs the aio to be there
abbrev needed : ℕ → Option ℕ
needed zero = none
needed (suc n) = some (suc n)

abbrev freed : ℕ → Option ℕ
freed zero = none
freed (suc n) = some n

-- Whether `a` has been stopped since it was last allocated or received on.
unfoldable pub is_stopped : ℕ → List NngCall → Bool
is_stopped a [] = false
is_stopped a (aio_stop b ∷ cs) = let rest = is_stopped a cs in if nat_beq b a then true else rest
is_stopped a (aio_alloc b rv ∷ cs) =
    let rest = is_stopped a cs in if nat_beq b a then false else rest
is_stopped a (recv_aio b ∷ cs) = let rest = is_stopped a cs in if nat_beq b a then false else rest
is_stopped a (c ∷ cs) = is_stopped a cs

-- How often `a` is allocated after one more call, given whether it is stopped; `none` for a call that breaks the rule.
unfoldable pub after_call : ℕ → Bool → NngCall → ℕ → Option ℕ
after_call a st (aio_alloc b zero) n = if nat_beq b a then some (suc n) else some n
after_call a st (recv_aio b) n = if nat_beq b a then needed n else some n
after_call a st (aio_stop b) n = if nat_beq b a then needed n else some n
after_call a st (aio_free b) n = if nat_beq b a then (if st then freed n else none) else some n
after_call a st _ n = some n

-- After a history, the latest call first.
unfoldable pub live : ℕ → List NngCall → Option ℕ
unfolding after_call is_stopped
live a [] = some 0
live a (c ∷ cs) = live a cs >>= after_call a (is_stopped a cs) c

unfoldable pub count : ℕ → List ℕ → ℕ
count a [] = 0
count a (b ∷ bs) = (if nat_beq b a then 1 else 0) + count a bs

pub count-append : (a : ℕ) (xs ys : List ℕ) → count a (xs ++ ys) ≡ count a xs + count a ys
unfolding count
count-append a [] ys = omega arith
count-append a (x ∷ xs) ys = omega (arith, count-append a xs ys)
