-- ===== src/Tests/Startup.antt =====
-- The theorems on cmd/server/main.go, internal/admin and internal/server at concrete inputs.
use mathlib.Core.Option
use distributed_counter.Base.{
  Text, ℕ, ◌+◌, ◌-◌, ◌*◌, ◌/◌, ◌≡◌, ◌⊎◌, refl, true, false, ◌&&◌, some, none, List, [], ◌∷◌, arith,
  if◌then◌else◌, codes, text_eq, lookup, set, length, ◌==◌, leb, lt64,
}
use Prim.Native.Nat.{min}
use distributed_counter.Crdt.Extensional.{SameCounts}
use distributed_counter.Crdt.PnCounter
use distributed_counter.Crdt.PnCounter.{
  PnCounter, positive_copy, negative_copy, merge, remote_counter,
}
use distributed_counter.Crdt.PnCounter.Convergence.{SameCounter}
use distributed_counter.Crdt.VectorClock
use distributed_counter.Crdt.Counts.{copy_into, merge_max, merge_step}
use distributed_counter.Persistence.Wal.{Disk, wrote}
use distributed_counter.Cluster.Member.{Member, alive, left, set_status}
use distributed_counter.Cluster.Membership.{Membership, mark_left}
use distributed_counter.Cluster.Membership.Invariant.{IsValid}
use distributed_counter.Gossip.Engine.{dial_failed, answered}
use distributed_counter.Service.State.{Service, Io}
use distributed_counter.Service.State
use distributed_counter.Service.Sync.{
  StateUpdate, full_state, sync_update, build_full_reply, take_update, merge_update,
}
use distributed_counter.Startup.Seeds.{unique_ordered_seeds}
use distributed_counter.Startup.Recover.{
  Seeds, has_state, recover_state, max_attempts, recovery_request,
}
use distributed_counter.Startup.Recover.Answers.{IsRecovered, recovery_succeeds}
use distributed_counter.Startup.Recover.Limits.{IsBounded, recovery-IsBounded}
use distributed_counter.Startup.Recover.Agrees.{recovery_agrees}
use distributed_counter.Startup.Pings.{is_self, send_heartbeats}
use distributed_counter.Startup.Pings.Pinged.{pinged, send_heartbeats-pings_each}
use distributed_counter.Admin.{AdminService, remove_node}
use distributed_counter.Admin.Removal.{Stands, removed_node_comes_back}
use distributed_counter.Server.Floats.{Float, IsExact, exact_limit}
use distributed_counter.Server.Auth.{Reply, handled, unauthenticated, AuthInterceptor, Metadata}
use distributed_counter.Server.RateLimit.{RateLimiter, new_rate_limiter, limit_rate}
use distributed_counter.Server.RateLimit.Bursts.{admitted, burst_is_limited}
use distributed_counter.Server.Chain.{serve}
use distributed_counter.Server.Chain.Guarded.{LacksKey, calls_need_the_key}

abbrev own : Text
own = codes "n"

abbrev own_address : Text
own_address = codes "n:1"

abbrev first_seed : Text
first_seed = codes "s:1"

abbrev second_seed : Text
second_seed = codes "s:2"

abbrev seed_nodes : List Text
seed_nodes = first_seed ∷ first_seed ∷ second_seed ∷ []

abbrev remote : StateUpdate
remote = record {
  from_node_id = codes "s";
  positive_state = (codes "s", 4) ∷ [];
  negative_state = [];
  vector_clock = (codes "s", 1) ∷ [];
  timestamp = 6;
  type = full_state;
  last_sync_version = 0;
  membership = [];
}

-- Only the second seed is up, from the second attempt on.
abbrev late : Seeds
late = record {
  contact = λ attempt seed.
      if leb 1 attempt && text_eq seed second_seed then answered remote else dial_failed;
  now = λ attempt seed. 100 + attempt;
}

abbrev fresh : Service
fresh = State.new own

recovery_succeeds_example :
    IsRecovered own_address late seed_nodes 0 max_attempts fresh
      (recover_state own_address late seed_nodes fresh)
unfolding has_state text_eq
recovery_succeeds_example =
    recovery_succeeds own_address late seed_nodes fresh 3 second_seed (omega arith) refl refl

recovery-IsBounded_example :
    IsBounded
      (5 * length (unique_ordered_seeds seed_nodes))
      3_750_000_000
      (recover_state own_address late seed_nodes fresh)
recovery-IsBounded_example = recovery-IsBounded own_address late seed_nodes fresh

abbrev disk : Disk
disk = record {
  opens = true;
  write = wrote;
  syncs = true;
  removes = true;
  encoded_length = λ e. 200;
}

abbrev io : Io
io = record { disk = disk; saves = true; applies = false; loads = true; now = 7 }

abbrev seed_service : Service
seed_service = record (State.new (codes "s")) {
  counter = record { positive = (codes "s", 4) ∷ []; negative = []; node_id = codes "s" };
  clock = record { clock = (codes "s", 1) ∷ []; node_id = codes "s" };
}

fresh-IsValid : PnCounter.IsValid fresh.counter × VectorClock.IsValid fresh.clock
unfolding State.new PnCounter.new VectorClock.new
fresh-IsValid = (
  record {
    positive_distinct = tt;
    negative_distinct = tt;
    positive_nonneg = tt;
    negative_nonneg = tt;
  },
  record { distinct = tt; nonneg = tt },
)

seed-IsValid : PnCounter.IsValid seed_service.counter × VectorClock.IsValid seed_service.clock
unfolding lookup
seed-IsValid = (
  record {
    positive_distinct = (refl, tt);
    negative_distinct = tt;
    positive_nonneg = (omega arith, tt);
    negative_nonneg = tt;
  },
  record { distinct = (refl, tt); nonneg = (omega arith, tt) },
)

abbrev seed_reply : StateUpdate
seed_reply = build_full_reply 7 (sync_update io (recovery_request 5 fresh) seed_service).0

abbrev live : Seeds
live = record { contact = λ attempt seed. answered seed_reply; now = λ attempt seed. 9 }

recovery_agrees_example :
    let (b', ack) = sync_update io (recovery_request 5 fresh) seed_service in
    let a' = (recover_state own_address live seed_nodes fresh).0.service in
    (ack ≡ some seed_reply)
    × SameCounter a'.counter b'.counter
    × SameCounts a'.clock.clock b'.clock.clock
unfolding has_state build_full_reply positive_copy copy_into sync_update recovery_request
    State.persist State.wal_append take_update merge_update merge remote_counter merge_max
    merge_step set State.new PnCounter.new PnCounter.set_positive PnCounter.set_negative
recovery_agrees_example =
    recovery_agrees io own_address live first_seed (first_seed ∷ second_seed ∷ []) 5 fresh
      seed_service fresh-IsValid.0 fresh-IsValid.1 seed-IsValid.0 seed-IsValid.1 refl refl

abbrev peer : Member
peer = record {
  id = codes "p";
  address = codes "p:1";
  status = alive;
  is_active = true;
  counter_value = 0;
  last_heartbeat = 1;
  suspect_count = 0;
  priority = 2;
}

abbrev table : Membership
table = record { node_id = own; members = (codes "p", peer) ∷ []; recovering = false }

table-IsValid : IsValid table
unfolding lookup
table-IsValid = record { distinct = (refl, tt); filed = (record { key = refl; active = refl }, tt) }

send_heartbeats-pings_each_example :
    lookup (send_heartbeats (λ x. false) (λ id. 9) own own_address table).members (codes "p")
    ≡ Option.map (pinged (λ x. false) (λ id. 9) own own_address) (lookup table.members (codes "p"))
send_heartbeats-pings_each_example =
    send_heartbeats-pings_each (λ x. false) (λ id. 9) own own_address table (codes "p")
      table-IsValid

abbrev operator : AdminService
operator = record { node_id = own; membership = some table; gossip = none }

removed_node_comes_back_example :
    let m' = mark_left (codes "p") table in
    ((remove_node (codes "p") operator).0.membership ≡ some m')
    × Stands (codes "p") left m'
    × Stands (codes "p") alive (send_heartbeats (λ x. true) (λ id. 9) own own_address m')
unfolding lookup text_eq is_self set_status
removed_node_comes_back_example =
    removed_node_comes_back operator (codes "p") table peer (λ x. true) (λ id. 9) own_address refl
      table-IsValid (λ e. cc) (λ e. absurd (ground (arith, e))) refl refl refl

-- Whole tokens, with a greatest float above all of them.
instance abbrev pub tokens : Float ℕ
tokens = record {
  of_int = λ n. n;
  max_float = exact_limit;
  min_float = min;
  add = ◌+◌;
  mul = ◌*◌;
  minus_one = λ n. n - 1;
  at_least_one = leb 1;
  equals = ◌==◌;
  seconds = λ now last. (now - last) / 1_000_000_000;
}

no_seconds : (t n r : ℕ) → n + (t - t) / 1_000_000_000 * r ≡ n
no_seconds t n r =
    let none_passed : (t - t) / 1_000_000_000 ≡ 0 = omega arith in rw none_passed (omega arith)

tokens-IsExact : IsExact ℕ
tokens-IsExact = record {
  max_equals = refl;
  int_below_max = λ n h. ground arith;
  minus_one_int = λ n h. omega arith;
  suc_at_least_one = λ n h. ground arith;
  zero_below_one = refl;
  no_time = λ t n r h k. no_seconds t n r;
  min_int = λ c n h k. omega arith;
}

burst_is_limited_example : admitted {W = ℕ} 5 4 (new_rate_limiter 3 5) ≡ min 3 4
unfolding lt64
burst_is_limited_example = burst_is_limited tokens-IsExact 3 5 4 (λ e. omega arith)

abbrev guard : AuthInterceptor
guard = record { enabled = true; api_key = codes "secret" }

abbrev header : Metadata
header = some (codes "Bearer guess" ∷ [])

abbrev before : RateLimiter ℕ × ℕ
before = (new_rate_limiter 3 5, 0)

abbrev count_call : ℕ → ℕ × Reply ℕ
count_call n = (n + 1, handled n)

calls_need_the_key_example :
    let method = codes "/counter.CounterService/Increment" in
    let s = before in
    (LacksKey guard method header
      × (serve guard method header 5 count_call s ≡ (s, unauthenticated)))
    ⊎ ((¬ LacksKey guard method header)
        × (serve guard method header 5 count_call s ≡ limit_rate 5 count_call s))
calls_need_the_key_example =
    calls_need_the_key guard (codes "/counter.CounterService/Increment") header 5 count_call before
