-- ===== src/Shared/Int.antt =====
-- Signed integers over the native numbers, where the source goes below zero.
use Prim.Native.Nat.{ℕ, zero, suc, ◌+◌, ◌≤◌}
use mathlib.Core.Path.{◌≡◌}
use mathlib.Core.Bool.{Bool, true, false}
use native.Mathlib.Omega.{arith}
use end_of_line.Shared.Tests.{ltb, if◌then◌else◌}

-- `negsuc n` is -(n + 1).
pub data ℤ : Type 0 where
  pos : ℕ → ℤ
  negsuc : ℕ → ℤ

abbrev pub pos_part : ℤ → ℕ
pos_part (pos n) = n
pos_part (negsuc n) = 0

abbrev pub neg_part : ℤ → ℕ
neg_part (pos n) = 0
neg_part (negsuc n) = suc n

-- a < b, with the negative parts moved across.
abbrev pub ltb_ℤ : ℤ → ℤ → Bool
ltb_ℤ a b = ltb (pos_part a + neg_part b) (pos_part b + neg_part a)

abbrev pub min_ℤ : ℤ → ℤ → ℤ
min_ℤ a b = if ltb_ℤ b a then b else a

infix 50 ◌<ℤ◌
abbrev pub ◌<ℤ◌ : ℤ → ℤ → Type 0
a <ℤ b = suc (pos_part a + neg_part b) ≤ pos_part b + neg_part a

abbrev pub pred_ℤ : ℤ → ℤ
pred_ℤ (pos n) = elim n [ zero ↦ negsuc 0 | suc m ↦ pos m ]
pred_ℤ (negsuc n) = negsuc (suc n)

abbrev pub suc_ℤ : ℤ → ℤ
suc_ℤ (pos n) = pos (suc n)
suc_ℤ (negsuc n) = elim n [ zero ↦ pos 0 | suc m ↦ negsuc m ]

-- The successor is one more, with the negative parts moved across.
pub suc_ℤ-parts : (b : ℤ) → pos_part (suc_ℤ b) + neg_part b ≡ suc (pos_part b + neg_part (suc_ℤ b))
suc_ℤ-parts (pos n) = omega arith
suc_ℤ-parts (negsuc zero) = omega arith
suc_ℤ-parts (negsuc (suc n)) = omega arith

pub pred_ℤ-parts :
    (b : ℤ) → suc (pos_part (pred_ℤ b) + neg_part b) ≡ pos_part b + neg_part (pred_ℤ b)
pred_ℤ-parts (pos zero) = omega arith
pred_ℤ-parts (pos (suc n)) = omega arith
pred_ℤ-parts (negsuc n) = omega arith

pub suc_ℤ-up : (a b : ℤ) → a <ℤ b → a <ℤ suc_ℤ b
suc_ℤ-up a b h = omega (arith, h, suc_ℤ-parts b)

pub <ℤ-suc : (a : ℤ) → a <ℤ suc_ℤ a
<ℤ-suc a = omega (arith, suc_ℤ-parts a)

pub <ℤ-pred : (a : ℤ) → pred_ℤ a <ℤ a
<ℤ-pred a = omega (arith, pred_ℤ-parts a)

pub <ℤ-trans : (a b c : ℤ) → a <ℤ b → b <ℤ c → a <ℤ c
<ℤ-trans a b c h k = omega (arith, h, k)

-- From a ≤ b, written a < b + 1, and b < c.
pub <ℤ-lift : (a b c : ℤ) → a <ℤ suc_ℤ b → ltb_ℤ b c ≡ true → a <ℤ suc_ℤ c
<ℤ-lift a b c h k = ground (arith, h, k, suc_ℤ-parts b, suc_ℤ-parts c)

-- From b not below c, c is at most b.
pub <ℤ-total : (b c : ℤ) → ltb_ℤ b c ≡ false → c <ℤ suc_ℤ b
<ℤ-total b c k = ground (arith, k, suc_ℤ-parts b)
