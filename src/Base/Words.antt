-- ===== src/Base/Words.antt =====
-- Go's int64 as its bit pattern, a number below 2 ^ 64: patterns from 2 ^ 63 on are negative.
use Prim.Native.Nat.{ℕ, ◌+◌, ◌-◌, ◌%◌, ◌^◌, ◌<◌}
use mathlib.Core.Path.{◌≡◌, refl}
use mathlib.Core.Bool.{Bool, true, false}
use native.Mathlib.Omega.{arith}
use distributed_counter.Base.Tests.{ltb}

abbrev pub i64_mod : ℕ
i64_mod = 2 ^ 64

abbrev pub i64_half : ℕ
i64_half = 2 ^ 63

abbrev pub Int64 : Type 0
Int64 = ℕ

-- a + b and a - b, with the wrap-around of the machine.
unfoldable pub add64 : Int64 → Int64 → Int64
add64 a b = (a + b) % i64_mod

unfoldable pub sub64 : Int64 → Int64 → Int64
sub64 a b = (a + (i64_mod - b % i64_mod)) % i64_mod

-- a < b, signed: adding 2 ^ 63 turns the signed order into the order of the patterns.
unfoldable pub lt64 : Int64 → Int64 → Bool
lt64 a b = ltb ((a + i64_half) % i64_mod) ((b + i64_half) % i64_mod)

pub add64_assoc : (a b c : ℕ) → add64 (add64 a b) c ≡ add64 a (add64 b c)
unfolding add64
add64_assoc a b c = omega arith

pub add64_comm : (a b : ℕ) → add64 a b ≡ add64 b a
unfolding add64
add64_comm a b = omega arith

pub sub64-add64_left : (a b d : ℕ) → sub64 (add64 a d) b ≡ add64 (sub64 a b) d
unfolding add64 sub64
sub64-add64_left a b d = omega arith

pub sub64-add64_right : (a b d : ℕ) → sub64 a (add64 b d) ≡ sub64 (sub64 a b) d
unfolding add64 sub64
sub64-add64_right a b d = omega arith

-- On values that are not negative the signed test is the test on numbers.
pub lt64_nonneg : (a b : ℕ) → a < i64_half → b < i64_half → lt64 a b ≡ ltb a b
unfolding lt64
lt64_nonneg a b ha hb = ground arith

minus_one : lt64 (i64_mod - 1) 0 ≡ true
unfolding lt64
minus_one = refl

-- The place of a value in the signed order.
abbrev pub key64 : Int64 → ℕ
key64 a = (a + i64_half) % i64_mod

pub lt64_asymm : (a b : ℕ) → lt64 a b ≡ true → lt64 b a ≡ false
unfolding lt64
lt64_asymm a b h = ground arith

pub lt64_irrefl : (a : ℕ) → lt64 a a ≡ false
unfolding lt64
lt64_irrefl a = ground arith

pub key64_inj : (a b : ℕ) → a < i64_mod → b < i64_mod → key64 a ≡ key64 b → a ≡ b
key64_inj a b ha hb h = omega arith
