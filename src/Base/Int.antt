-- ===== src/Base/Int.antt =====
-- The signed integers of the C code, with the comparisons it makes.
use Prim.Native.Nat.{ℕ, zero, suc}
use mathlib.Core.Path.{◌≡◌, refl}
use mathlib.Core.Bool.{Bool, true, false}
use native.Mathlib.Omega.{arith}
use distibuted_sys.Base.Tests.{ltb, ◌==◌}

-- `negsuc n` is -(n + 1).
pub data ℤ : Type 0 where
  pos : ℕ → ℤ
  negsuc : ℕ → ℤ

abbrev pub minus_one : ℤ
minus_one = negsuc 0

abbrev pub neg_of : ℕ → ℤ
neg_of zero = pos 0
neg_of (suc n) = negsuc n

abbrev pub ltz : ℤ → ℤ → Bool
ltz (pos a) (pos b) = ltb a b
ltz (pos a) (negsuc b) = false
ltz (negsuc a) (pos b) = true
ltz (negsuc a) (negsuc b) = ltb b a

abbrev pub eqz : ℤ → ℤ → Bool
eqz (pos a) (pos b) = a == b
eqz (pos a) (negsuc b) = false
eqz (negsuc a) (pos b) = false
eqz (negsuc a) (negsuc b) = a == b

pub eqz→eq : (a b : ℤ) → eqz a b ≡ true → a ≡ b
eqz→eq (pos a) (pos b) h = ground arith
eqz→eq (pos a) (negsuc b) h = cc
eqz→eq (negsuc a) (pos b) h = cc
eqz→eq (negsuc a) (negsuc b) h = ground arith

pub eqz_refl : (a : ℤ) → eqz a a ≡ true
eqz_refl (pos a) = ground arith
eqz_refl (negsuc a) = ground arith

pub ltz_irrefl : (a : ℤ) → ltz a a ≡ false
ltz_irrefl (pos a) = ground arith
ltz_irrefl (negsuc a) = ground arith

-- From `k ≤ a` and `a < b` follows `k ≤ b`.
pub not_ltz_trans : (a b k : ℤ) → ltz a k ≡ false → ltz a b ≡ true → ltz b k ≡ false
not_ltz_trans (pos a) (pos b) (pos k) h l = ground arith
not_ltz_trans (pos a) (pos b) (negsuc k) h l = ground arith
not_ltz_trans (pos a) (negsuc b) k h l = cc
not_ltz_trans (negsuc a) (pos b) (pos k) h l = cc
not_ltz_trans (negsuc a) (pos b) (negsuc k) h l = ground arith
not_ltz_trans (negsuc a) (negsuc b) (pos k) h l = cc
not_ltz_trans (negsuc a) (negsuc b) (negsuc k) h l = ground arith

pub ltz-neq : (a k : ℤ) → ltz a k ≡ true → eqz a k ≡ false
ltz-neq (pos a) (pos k) h = ground arith
ltz-neq (pos a) (negsuc k) h = cc
ltz-neq (negsuc a) (pos k) h = refl
ltz-neq (negsuc a) (negsuc k) h = ground arith

-- From `k ≤ a` and `a < b` follows that `b` is not `k`.
pub not_ltz-neq : (a b k : ℤ) → ltz a k ≡ false → ltz a b ≡ true → eqz b k ≡ false
not_ltz-neq (pos a) (pos b) (pos k) h l = ground arith
not_ltz-neq (pos a) (pos b) (negsuc k) h l = refl
not_ltz-neq (pos a) (negsuc b) k h l = cc
not_ltz-neq (negsuc a) (pos b) (pos k) h l = cc
not_ltz-neq (negsuc a) (pos b) (negsuc k) h l = refl
not_ltz-neq (negsuc a) (negsuc b) (pos k) h l = cc
not_ltz-neq (negsuc a) (negsuc b) (negsuc k) h l = ground arith

pub ltz_trans : (a b c : ℤ) → ltz a b ≡ true → ltz b c ≡ true → ltz a c ≡ true
ltz_trans (pos a) (pos b) (pos c) h l = ground arith
ltz_trans (pos a) (pos b) (negsuc c) h l = cc
ltz_trans (pos a) (negsuc b) c h l = cc
ltz_trans (negsuc a) (pos b) (pos c) h l = refl
ltz_trans (negsuc a) (pos b) (negsuc c) h l = cc
ltz_trans (negsuc a) (negsuc b) (pos c) h l = refl
ltz_trans (negsuc a) (negsuc b) (negsuc c) h l = ground arith

pub ltz_total : (a b : ℤ) → ltz a b ≡ false → eqz a b ≡ false → ltz b a ≡ true
ltz_total (pos a) (pos b) h l = ground arith
ltz_total (pos a) (negsuc b) h l = refl
ltz_total (negsuc a) (pos b) h l = cc
ltz_total (negsuc a) (negsuc b) h l = ground arith
