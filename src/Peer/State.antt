-- ===== src/Peer/State.antt =====
-- The fields of a peer, and how an operation ends.
use zmq_ipc.Prelude.{ℕ, Option, List, ◌∷◌, ◌≡◌, refl, subst, bytes_eq}
use zmq_ipc.Prelude.Dict.{Dict, assign}
use zmq_ipc.Nng.{NngCall}

-- HandlerFunc: the request's bytes, and the string `response_out` before and after the call.
abbrev pub HandlerFunc : Type 0
HandlerFunc = List ℕ → List ℕ → List ℕ

-- The shared state of a std::promise and its std::future: no result yet, the result (a null pointer
-- or the payload), or a promise that was destroyed with no result.
pub data Shared : Type 0 where
  unset : Shared
  value : Option (List ℕ) → Shared
  broken : Shared

-- `pending_requests` maps an id to the address of its promise's shared state in `promises`.
pub record Peer : Type 0 where
  pub address : List ℕ
  pub num_workers : ℕ
  pub aio_list : List ℕ
  pub method_map : Dict (List ℕ) HandlerFunc
  pub next_request_id : ℕ
  pub pending_requests : Dict ℕ ℕ
  pub promises : Dict ℕ Shared
  pub next_promise : ℕ
  pub calls : List NngCall

-- What a C++ program does that its source does not mean to: reading through a null pointer, using a
-- message that was never allocated, and the two exceptions of promises that nobody catches.
pub data Fault : Type 0 where
  null_pointer no_message promise_already_satisfied broken_promise : Fault

pub data Outcome {ℓ} (A : Type ℓ) : Type ℓ where
  done : A → Outcome A
  fault : Fault → Outcome A

infixl 5 ◌>>=◌
abbrev pub ◌>>=◌ {ℓ κ} : {A : Type ℓ} {B : Type κ} → Outcome A → (A → Outcome B) → Outcome B
done a >>= f = f a
fault e >>= f = fault e

-- method_map[method_name] = wrapper
abbrev pub with_handler : List ℕ → HandlerFunc → Peer → Peer
with_handler method_name wrapper s = record s {
  method_map = assign method_name wrapper s.method_map;
}

abbrev pub called : NngCall → Peer → Peer
called c s = record s { calls = c ∷ s.calls }

-- How an operation may end: with `P`, or at a null pointer or a failed allocation.
abbrev pub EndsIn {ℓ} : {A : Type ℓ} → (A → Type 0) → Outcome A → Type 0
EndsIn P (done a) = P a
EndsIn P (fault null_pointer) = Unit
EndsIn P (fault no_message) = Unit
EndsIn P (fault promise_already_satisfied) = ⊥
EndsIn P (fault broken_promise) = ⊥

pub EndsIn-map {ℓ κ} :
    {A : Type ℓ} {B : Type κ} (P : A → Type 0) (Q : B → Type 0) (f : A → B) (o : Outcome A)
    → ((a : A) → P a → Q (f a))
    → EndsIn P o
    → EndsIn Q (o >>= λ a. done (f a))
EndsIn-map P Q f (done a) k h = k a h
EndsIn-map P Q f (fault null_pointer) k h = tt
EndsIn-map P Q f (fault no_message) k h = tt
EndsIn-map P Q f (fault promise_already_satisfied) k h = absurd h
EndsIn-map P Q f (fault broken_promise) k h = absurd h

pub EndsIn-bind {ℓ κ} :
    {A : Type ℓ} {B : Type κ} (P : A → Type 0) (Q : B → Type 0) (f : A → Outcome B) (o : Outcome A)
    → ((a : A) → P a → EndsIn Q (f a))
    → EndsIn P o
    → EndsIn Q (o >>= f)
EndsIn-bind P Q f (done a) k h = k a h
EndsIn-bind P Q f (fault null_pointer) k h = tt
EndsIn-bind P Q f (fault no_message) k h = tt
EndsIn-bind P Q f (fault promise_already_satisfied) k h = absurd h
EndsIn-bind P Q f (fault broken_promise) k h = absurd h

pub EndsIn-done {ℓ} :
    {A : Type ℓ} (Q : A → Type 0) (o : Outcome A) (a : A) → EndsIn Q o → o ≡ done a → Q a
EndsIn-done Q o a h e = subst (EndsIn Q) e h

pub done_of_bind {ℓ κ} :
    {A : Type ℓ} {B : Type κ} (f : A → Outcome B) (o : Outcome A) (b : B)
    → (o >>= f) ≡ done b
    → (a : A) × (o ≡ done a) × (f a ≡ done b)
done_of_bind f (done a) b e = (a, refl, e)
done_of_bind f (fault x) b e = cc

-- What holds if the operation ends without a fault.
abbrev pub IfDone {ℓ} : {A : Type ℓ} → (A → Type 0) → Outcome A → Type 0
IfDone P (done a) = P a
IfDone P (fault e) = Unit

pub IfDone-done {ℓ} :
    {A : Type ℓ} (Q : A → Type 0) (o : Outcome A) (a : A) → IfDone Q o → o ≡ done a → Q a
IfDone-done Q o a h e = subst (IfDone Q) e h

pub IfDone-bind {ℓ κ} :
    {A : Type ℓ} {B : Type κ} (P : A → Type 0) (Q : B → Type 0) (f : A → Outcome B) (o : Outcome A)
    → ((a : A) → P a → IfDone Q (f a))
    → IfDone P o
    → IfDone Q (o >>= f)
IfDone-bind P Q f (done a) k h = k a h
IfDone-bind P Q f (fault e) k h = tt

pub EndsIn-IfDone {ℓ} :
    {A : Type ℓ} (P Q : A → Type 0) (o : Outcome A)
    → EndsIn P o
    → IfDone Q o
    → EndsIn (λ a. P a × Q a) o
EndsIn-IfDone P Q (done a) h k = (h, k)
EndsIn-IfDone P Q (fault null_pointer) h k = tt
EndsIn-IfDone P Q (fault no_message) h k = tt
EndsIn-IfDone P Q (fault promise_already_satisfied) h k = h
EndsIn-IfDone P Q (fault broken_promise) h k = h
