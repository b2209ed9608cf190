-- ===== src/Gossip/Circuit.antt =====
-- internal/gossip/circuit.go. Instants and durations are numbers of nanoseconds, time.Time{} is 0, and
-- the count of failures in a row is left unbounded.
pub mod Trips
use distributed_counter.Base.{ℕ, ◌+◌, Bool, true, false, if◌then◌else◌, ltb, leb, Int64, lt64}

pub record CircuitBreaker : Type 0 where
  pub failures : ℕ
  pub open_until : ℕ
  pub max_failures : ℕ
  pub cooldown : ℕ

-- newCircuitBreaker: three failures and thirty seconds, where the arguments are not positive
unfoldable pub new_circuit_breaker : Int64 → Int64 → CircuitBreaker
new_circuit_breaker max_failures cooldown = record {
  failures = 0;
  open_until = 0;
  max_failures = if lt64 0 max_failures then max_failures else 3;
  cooldown = if lt64 0 cooldown then cooldown else 30_000_000_000;
}

-- Allow
unfoldable pub allow : ℕ → CircuitBreaker → Bool
allow now c = if ltb now c.open_until then false else true

-- Success
unfoldable pub success : CircuitBreaker → CircuitBreaker
success c = record c { failures = 0; open_until = 0 }

-- Failure
unfoldable pub failure : ℕ → CircuitBreaker → CircuitBreaker
failure now c =
    let counted = record c { failures = c.failures + 1 } in
    if leb c.max_failures counted.failures
    then record counted { open_until = now + c.cooldown }
    else counted

-- State
unfoldable pub state : ℕ → CircuitBreaker → ℕ × Bool
state now c = (c.failures, ltb now c.open_until)
