-- ===== src/Base/Int.antt =====
-- Signed integers over the native numbers, as far as a counter that only falls needs them.
use Prim.Native.Nat.{ℕ, zero, suc, ◌-◌, ◌≤◌}
use mathlib.Core.Path.{◌≡◌}
use mathlib.Core.Bool.{Bool, true, false}
use native.Mathlib.Omega.{arith}
use go_tempo.Base.Tests.{ltb, ◌==◌, if◌then◌else◌}

-- `negsuc n` is -(n + 1).
pub data ℤ : Type 0 where
  pos : ℕ → ℤ
  negsuc : ℕ → ℤ

-- n - k, as an integer.
abbrev pub sub_ℕ : ℕ → ℕ → ℤ
sub_ℕ n k = if ltb n k then negsuc (k - n - 1) else pos (n - k)

abbrev pub pred_ℤ : ℤ → ℤ
pred_ℤ (pos zero) = negsuc 0
pred_ℤ (pos (suc n)) = pos n
pred_ℤ (negsuc n) = negsuc (suc n)

abbrev pub is_zero : ℤ → Bool
is_zero (pos zero) = true
is_zero (pos (suc n)) = false
is_zero (negsuc n) = false

abbrev pub ◌≤ℤ◌ : ℤ → ℤ → Type 0
◌≤ℤ◌ (pos m) (pos n) = m ≤ n
◌≤ℤ◌ (pos m) (negsuc n) = ⊥
◌≤ℤ◌ (negsuc m) (pos n) = Unit
◌≤ℤ◌ (negsuc m) (negsuc n) = n ≤ m

infix 50 ◌≤ℤ◌
pub ≤ℤ_refl : (a : ℤ) → a ≤ℤ a
≤ℤ_refl (pos n) = omega arith
≤ℤ_refl (negsuc n) = omega arith

pub ≤ℤ_trans : (a b c : ℤ) → a ≤ℤ b → b ≤ℤ c → a ≤ℤ c
≤ℤ_trans (pos a) (pos b) (pos c) p q = omega arith
≤ℤ_trans (pos a) (pos b) (negsuc c) p q = absurd q
≤ℤ_trans (pos a) (negsuc b) c p q = absurd p
≤ℤ_trans (negsuc a) b (pos c) p q = tt
≤ℤ_trans (negsuc a) (pos b) (negsuc c) p q = absurd q
≤ℤ_trans (negsuc a) (negsuc b) (negsuc c) p q = omega arith

pub pred_ℤ-le : (a : ℤ) → pred_ℤ a ≤ℤ a
pred_ℤ-le (pos zero) = tt
pred_ℤ-le (pos (suc n)) = omega arith
pred_ℤ-le (negsuc n) = omega arith

pub pred_ℤ-sub_ℕ : (n k : ℕ) → pred_ℤ (sub_ℕ n k) ≡ sub_ℕ n (suc k)
pred_ℤ-sub_ℕ n k = ground arith

pub is_zero-sub_ℕ : (n k : ℕ) → is_zero (sub_ℕ n k) ≡ (n == k)
is_zero-sub_ℕ n k = ground arith
