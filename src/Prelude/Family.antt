-- ===== src/Prelude/Family.antt =====
-- Families of values by number, one of which is replaced.
use mathlib.Core.Path.{◌≡◌, subst}
use mathlib.Core.Logic.{◌≢◌, ite}
use Prim.Native.Nat.{ℕ}
use native.Mathlib.Decide.{ℕ_discrete}
use native.Mathlib.Omega.{arith}

abbrev pub set_at {ℓ} : {A : Type ℓ} → (ℕ → A) → ℕ → A → ℕ → A
set_at f i a j = ite (ℕ_discrete i j) a (f j)

module _ {ℓ} {A : Type ℓ} (f : ℕ → A) (i : ℕ) (a : A) where
  pub set_at-same : set_at f i a i ≡ a
  set_at-same = ground arith

  pub set_at-other : (j : ℕ) → i ≢ j → set_at f i a j ≡ f j
  set_at-other j ne = ground (arith, ne)

  -- To prove `P` of every member, prove it of the new one and of the others.
  pub set_at-All {κ} :
      (P : ℕ → A → Type κ) → P i a → ((j : ℕ) → i ≢ j → P j (f j)) → (j : ℕ) → P j (set_at f i a j)
  set_at-All P new old j = elim (ℕ_discrete i j) as (λ d. P j (ite d a (f j))) [
    | yes e ↦ subst (λ k. P k a) e new
    | no ne ↦ old j ne
  ]
