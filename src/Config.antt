-- ===== src/Config.antt =====
-- internal/config/config.go: the defaults that Load puts in place of what the file and the environment
-- leave out or set to nonsense. The fields that it does not touch are left out.
use distributed_counter.Base.{Text, Bool, [], if◌then◌else◌, codes, text_eq, Int64, lt64}

-- What Load does with the float64 ratio: `x <= 0 || x > 1`, and 1.0.
pub record Ratio {ℓ} (W : Type ℓ) : Type ℓ where
  pub out_of_range : W → Bool
  pub one : W

pub record Config {ℓ} (W : Type ℓ) : Type ℓ where
  pub gossip_interval : Int64
  pub heartbeat_interval : Int64
  pub heartbeat_timeout : Int64
  pub snapshot_interval_seconds : Int64
  pub swim_interval : Int64
  pub swim_probe_timeout : Int64
  pub swim_suspect_to_dead : Int64
  pub wal_dir : Text
  pub trace_endpoint : Text
  pub trace_sample_ratio : W
  pub counter_shards : Int64
  pub election_interval : Int64

-- if x <= 0 { x = default }
unfoldable pub positive_or : Int64 → Int64 → Int64
positive_or default x = if lt64 0 x then x else default

-- if s == "" { s = default }
unfoldable pub text_or : Text → Text → Text
text_or default s = if text_eq s [] then default else s

-- The end of Load, on what the file and the environment gave.
unfoldable pub with_defaults {ℓ} : {W : Type ℓ} ⦃r : Ratio W⦄ → Config W → Config W
unfolding positive_or text_or
with_defaults ⦃r⦄ c = record {
  gossip_interval = positive_or 5 c.gossip_interval;
  heartbeat_interval = positive_or 3 c.heartbeat_interval;
  heartbeat_timeout = positive_or 10 c.heartbeat_timeout;
  snapshot_interval_seconds = positive_or 30 c.snapshot_interval_seconds;
  swim_interval = positive_or 1 c.swim_interval;
  swim_probe_timeout = positive_or 2 c.swim_probe_timeout;
  swim_suspect_to_dead = positive_or 3 c.swim_suspect_to_dead;
  wal_dir = text_or (codes "data") c.wal_dir;
  trace_endpoint = text_or (codes "localhost:4317") c.trace_endpoint;
  trace_sample_ratio = if r.out_of_range c.trace_sample_ratio then r.one else c.trace_sample_ratio;
  counter_shards = positive_or 1 c.counter_shards;
  election_interval = positive_or 2 c.election_interval;
}
