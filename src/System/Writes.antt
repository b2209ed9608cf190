-- ===== src/System/Writes.antt =====
-- What an increment or a decrement of internal/service/counter_service.go writes.
use distributed_counter.Base.{
  Text, ℕ, ◌+◌, ◌≤◌, ◌<◌, ◌≡◌, refl, sym, ◌∙◌, ap, arith, false, [], subst, set, set-Distinct,
  AllValues-set, Distinct, text_eq, text_eq_refl, add64, Int64, i64_half,
}
use distributed_counter.Crdt.Counts.{Counts, count_at, count_at-set, IsNonneg}
use distributed_counter.Crdt.Keys.{counter_key}
use distributed_counter.Crdt.PnCounter
use distributed_counter.Crdt.PnCounter.{PnCounter, increment_name, decrement_name}
use distributed_counter.Crdt.VectorClock
use distributed_counter.Crdt.VectorClock.{VectorClock}
use distributed_counter.Gossip.Engine.Rounds.{wal_append-SameData, persist-SameData}
use distributed_counter.Service.State.{Service, Io, op_increment, op_decrement, wal_append, persist}
use distributed_counter.Service.Handlers.{
  increment, decrement, apply_increment, apply_decrement, normalize_name, delta_of,
}
use distributed_counter.System.History.{version}
use distributed_counter.System.Pair.{SameSelf, SameSelf-trans, wal_append-keeps, persist-keeps}

-- m with d added at the key, without an overflow.
record IsAdded (m : Counts) (key : Text) (d : ℕ) (m' : Counts) : Type 0 where
  distinct : Distinct m'
  nonneg : IsNonneg m'
  here : count_at m' key ≡ count_at m key + d
  others : (k : Text) → text_eq key k ≡ false → count_at m' k ≡ count_at m k

added :
    (m : Counts) (key : Text) (d : ℕ)
    → Distinct m
    → IsNonneg m
    → count_at m key + d < i64_half
    → IsAdded m key d (set m key (add64 (count_at m key) d))
unfolding add64
added m key d distinct nonneg fits = record {
  distinct = set-Distinct m key _ distinct;
  nonneg = AllValues-set (λ v. v < i64_half) m key _ nonneg (omega (arith, fits));
  here = count_at-set m key key _ ∙ rw (text_eq_refl key) (omega (arith, fits));
  others = λ k e. count_at-set m key k _ ∙ rw e refl;
}

-- The counts and the clock of a node after it has written at one key.
pub record HasWritten (key : Text) (s s' : Service) : Type 0 where
  pub counter_valid : PnCounter.IsValid s'.counter
  pub clock_valid : VectorClock.IsValid s'.clock
  pub self : SameSelf s' s
  pub replies : s'.last_sync_clock ≡ s.last_sync_clock
  pub next : version s' key ≡ version s key + 1
  pub clock_others : (k : Text) → text_eq key k ≡ false → version s' k ≡ version s k
  pub positive_grows : count_at s.counter.positive key ≤ count_at s'.counter.positive key
  pub negative_grows : count_at s.counter.negative key ≤ count_at s'.counter.negative key
  pub positive_others :
      (k : Text)
      → text_eq key k ≡ false
      → count_at s'.counter.positive k ≡ count_at s.counter.positive k
  pub negative_others :
      (k : Text)
      → text_eq key k ≡ false
      → count_at s'.counter.negative k ≡ count_at s.counter.negative k

-- The state after the counter and the clock have changed, logged and saved.
abbrev stored : Io → Text → Text → Int64 → Service → Service
stored io op name d s = persist io (wal_append io op name d [] [] [] s)

stored-HasWritten :
    (io : Io) (op name key : Text) (d : Int64) (s s' : Service)
    → HasWritten key s s'
    → HasWritten key s (stored io op name d s')
stored-HasWritten io op name key d s s' w =
    let logged = wal_append io op name d [] [] [] s' in
    let pn =
      (persist-SameData io logged).counter
      ∙ (wal_append-SameData io op name d [] [] [] s').counter in
    let vc =
      (persist-SameData io logged).clock ∙ (wal_append-SameData io op name d [] [] [] s').clock in
    let p = persist-keeps io logged in
    let l = wal_append-keeps io op name d [] [] [] s' in
    let clock_at = λ (k : Text). ap (λ (v : VectorClock). count_at v.clock k) vc in
    let positive_at = λ (k : Text). ap (λ (c : PnCounter). count_at c.positive k) pn in
    let negative_at = λ (k : Text). ap (λ (c : PnCounter). count_at c.negative k) pn in
    record {
      counter_valid = subst PnCounter.IsValid (sym pn) w.counter_valid;
      clock_valid = subst VectorClock.IsValid (sym vc) w.clock_valid;
      self = SameSelf-trans _ s' s (SameSelf-trans _ logged s' p.0 l.0) w.self;
      replies = p.1 ∙ l.1 ∙ w.replies;
      next = clock_at key ∙ w.next;
      clock_others = λ k e. clock_at k ∙ w.clock_others k e;
      positive_grows = omega (arith, positive_at key, w.positive_grows);
      negative_grows = omega (arith, negative_at key, w.negative_grows);
      positive_others = λ k e. positive_at k ∙ w.positive_others k e;
      negative_others = λ k e. negative_at k ∙ w.negative_others k e;
    }

-- A node whose maps and clock have room for a write at the key.
pub record HasRoom (key : Text) (d : Int64) (s : Service) : Type 0 where
  pub positive : count_at s.counter.positive key + d < i64_half
  pub negative : count_at s.counter.negative key + d < i64_half
  pub clock : version s key + 1 < i64_half

module _ (id name : Text) (d : Int64) (s : Service) (counter_valid : PnCounter.IsValid s.counter)
    (clock_valid : VectorClock.IsValid s.clock) (counter_id : s.counter.node_id ≡ id)
    (clock_id : s.clock.node_id ≡ id) (room : HasRoom (counter_key name id) d s) where
  apply_increment-HasWritten : HasWritten (counter_key name id) s (apply_increment name d s)
  unfolding apply_increment increment_name VectorClock.increment_name
  apply_increment-HasWritten =
      let key = counter_key name id in
      let p =
        added s.counter.positive key d counter_valid.positive_distinct counter_valid.positive_nonneg
          room.positive in
      let c = added s.clock.clock key 1 clock_valid.distinct clock_valid.nonneg room.clock in
      rw (counter_id, clock_id)
        (record {
          counter_valid = record {
            positive_distinct = p.distinct;
            negative_distinct = counter_valid.negative_distinct;
            positive_nonneg = p.nonneg;
            negative_nonneg = counter_valid.negative_nonneg;
          };
          clock_valid = record { distinct = c.distinct; nonneg = c.nonneg };
          self = record { node_id = refl; counter_id = refl; clock_id = refl };
          replies = refl;
          next = c.here;
          clock_others = c.others;
          positive_grows = omega (arith, p.here);
          negative_grows = omega arith;
          positive_others = p.others;
          negative_others = λ k e. refl;
        })

  apply_decrement-HasWritten : HasWritten (counter_key name id) s (apply_decrement name d s)
  unfolding apply_decrement decrement_name VectorClock.increment_name
  apply_decrement-HasWritten =
      let key = counter_key name id in
      let n =
        added s.counter.negative key d counter_valid.negative_distinct counter_valid.negative_nonneg
          room.negative in
      let c = added s.clock.clock key 1 clock_valid.distinct clock_valid.nonneg room.clock in
      rw (counter_id, clock_id)
        (record {
          counter_valid = record {
            positive_distinct = counter_valid.positive_distinct;
            negative_distinct = n.distinct;
            positive_nonneg = counter_valid.positive_nonneg;
            negative_nonneg = n.nonneg;
          };
          clock_valid = record { distinct = c.distinct; nonneg = c.nonneg };
          self = record { node_id = refl; counter_id = refl; clock_id = refl };
          replies = refl;
          next = c.here;
          clock_others = c.others;
          positive_grows = omega arith;
          negative_grows = omega (arith, n.here);
          positive_others = λ k e. refl;
          negative_others = n.others;
        })

-- The key that the handlers write for a name in a request.
abbrev pub written_key : Text → Text → Text
written_key counter_name id = counter_key (normalize_name counter_name) id

module _ (io : Io) (id counter_name : Text) (d : ℕ) (s : Service)
    (counter_valid : PnCounter.IsValid s.counter) (clock_valid : VectorClock.IsValid s.clock)
    (counter_id : s.counter.node_id ≡ id) (clock_id : s.clock.node_id ≡ id)
    (room : HasRoom (written_key counter_name id) (delta_of d) s) where
  pub increment-HasWritten :
      HasWritten (written_key counter_name id) s (increment io counter_name d s).0
  unfolding increment
  increment-HasWritten =
      let name = normalize_name counter_name in
      stored-HasWritten io op_increment name (written_key counter_name id) (delta_of d) s
        (apply_increment name (delta_of d) s)
        (apply_increment-HasWritten id name (delta_of d) s counter_valid clock_valid counter_id
          clock_id room)

  pub decrement-HasWritten :
      HasWritten (written_key counter_name id) s (decrement io counter_name d s).0
  unfolding decrement
  decrement-HasWritten =
      let name = normalize_name counter_name in
      stored-HasWritten io op_decrement name (written_key counter_name id) (delta_of d) s
        (apply_decrement name (delta_of d) s)
        (apply_decrement-HasWritten id name (delta_of d) s counter_valid clock_valid counter_id
          clock_id room)
