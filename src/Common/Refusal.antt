-- ===== src/Common/Refusal.antt =====
-- What a check that may refuse a request returns: the HTTP status and message of `createError`.
use Prim.Native.Nat.{ℕ}
use Prim.Native.String.{String}
use mathlib.Core.Path.{◌≡◌, refl}
use mathlib.Core.Logic.{◌⊎◌, inl, inr}

pub data Checked {ℓ} (A : Type ℓ) : Type ℓ where
  passed : A → Checked A
  refused : ℕ → String → Checked A

pub Checked-cases {ℓ} :
    {A : Type ℓ} (c : Checked A)
    → ((a : A) × (c ≡ passed a)) ⊎ ((code : ℕ) × (m : String) × (c ≡ refused code m))
Checked-cases (passed a) = inl (a, refl)
Checked-cases (refused code m) = inr (code, m, refl)
