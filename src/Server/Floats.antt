-- ===== src/Server/Floats.antt =====
-- What internal/server/middleware.go does with float64: the operations are an argument of the model.
use distributed_counter.Base.{ℕ, suc, ◌^◌, ◌≤◌, ◌<◌, ◌≡◌, Bool, true, false, Int64}

pub record Float {ℓ} (W : Type ℓ) : Type ℓ where
  -- float64(n)
  pub of_int : Int64 → W
  -- math.MaxFloat64
  pub max_float : W
  pub min_float : W → W → W
  pub add : W → W → W
  pub mul : W → W → W
  -- x--
  pub minus_one : W → W
  -- x >= 1
  pub at_least_one : W → Bool
  pub equals : W → W → Bool
  -- now.Sub(last).Seconds()
  pub seconds : ℕ → ℕ → W

abbrev pub exact_limit : ℕ
exact_limit = 2 ^ 53

-- What IEEE 754 says of the integers up to 2 ^ 53: they are exact, adding nothing changes none, and each
-- is below the greatest float.
pub record IsExact {ℓ} (W : Type ℓ) ⦃d : Float W⦄ : Type ℓ where
  pub max_equals : d.equals d.max_float d.max_float ≡ true
  pub int_below_max : (n : ℕ) → n < exact_limit → d.equals (d.of_int n) d.max_float ≡ false
  pub minus_one_int : (n : ℕ) → suc n < exact_limit → d.minus_one (d.of_int (suc n)) ≡ d.of_int n
  pub suc_at_least_one : (n : ℕ) → suc n < exact_limit → d.at_least_one (d.of_int (suc n)) ≡ true
  pub zero_below_one : d.at_least_one (d.of_int 0) ≡ false
  pub no_time :
      (t n r : ℕ)
      → n < exact_limit
      → r < exact_limit
      → d.add (d.of_int n) (d.mul (d.seconds t t) (d.of_int r)) ≡ d.of_int n
  pub min_int :
      (c n : ℕ) → n ≤ c → c < exact_limit → d.min_float (d.of_int c) (d.of_int n) ≡ d.of_int n
