-- ===== src/Shared/Results.antt =====
-- Exceptions as values: the classes that the modelled code raises and tells apart.
use mathlib.Core.Path.{◌≡◌, refl}
use mathlib.Core.Logic.{◌⊎◌, inl, inr}
use Prim.Native.Nat.{ℕ}

-- Which part of the claim did not match: the three messages of a `ClaimMismatch`.
pub data Mismatch : Type 0 where
  no_active_claim token_mismatch phase_mismatch : Mismatch

pub data Error : Type 0 where
  claim_mismatch : Mismatch → Error
  already_claimed key_error value_error file_not_found file_exists : Error
  invalid_slug tick_conflict db_busy os_error : Error
  already_queued : ℕ → Error

pub data Result {ℓ} (A : Type ℓ) : Type ℓ where
  err : Error → Result A
  ok : A → Result A

-- An exception skips what follows it.
abbrev pub ◌>>=◌ {ℓ κ} : {A : Type ℓ} {B : Type κ} → Result A → (A → Result B) → Result B
err raised >>= next = err raised
ok value >>= next = next value

abbrev pub ◌>>◌ {ℓ} : {B : Type ℓ} → Result (Unit {0}) → Result B → Result B
first >> second = first >>= λ done. second

infixl 5 ◌>>=◌ ◌>>◌
pub Result-cases {ℓ} :
    {A : Type ℓ} (r : Result A) → ((a : A) × (r ≡ ok a)) ⊎ ((e : Error) × (r ≡ err e))
Result-cases (ok a) = inl (a, refl)
Result-cases (err e) = inr (e, refl)
