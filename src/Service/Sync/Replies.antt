-- ===== src/Service/Sync/Replies.antt =====
-- What the service remembers of its delta replies.
use distributed_counter.Base.{
  ℕ, ◌≡◌, refl, ◌∙◌, sym, subst, false, [], ◌∷◌, some, arith, lookup, set, lookup-set, text_eq_refl,
  Distinct,
}
use distributed_counter.Crdt.Counts.{Counts, IsNonneg, merge_max-Distinct, merge_max-IsNonneg}
use distributed_counter.Crdt.Copies.{copy_into-nil}
use distributed_counter.Crdt.VectorClock
use distributed_counter.Crdt.VectorClock.{state}
use distributed_counter.Crdt.Delta.{
  clock_newer_than, Delta, delta_step, delta_loop, delta_from, merge_clock,
}
use distributed_counter.Crdt.Delta.Clocks.{clock_newer_than_iff, merge_clock_pointwise}
use distributed_counter.Service.State.{Service}
use distributed_counter.Service.Sync.{StateUpdate, build_delta_reply}

-- A base that is not behind the clock leaves the delta empty.
delta_loop-none :
    (positive negative clock base : Counts) (d : Delta)
    → clock_newer_than clock base ≡ false
    → delta_loop positive negative clock base d ≡ d
unfolding clock_newer_than delta_loop delta_step
delta_loop-none positive negative [] base d h = refl
delta_loop-none positive negative ((node, v) ∷ clock) base d h =
    ground (arith, delta_loop-none positive negative clock base d)

merge_clock-Distinct : (a b : Counts) → Distinct a → Distinct (merge_clock a b)
unfolding merge_clock
merge_clock-Distinct a b da = rw (copy_into-nil a da) (merge_max-Distinct a b da)

merge_clock-IsNonneg :
    (a b : Counts) → Distinct a → IsNonneg a → IsNonneg b → IsNonneg (merge_clock a b)
unfolding merge_clock
merge_clock-IsNonneg a b da ha hb = rw (copy_into-nil a da) (merge_max-IsNonneg a b ha hb)

delta_from-none :
    (positive negative clock base : Counts)
    → clock_newer_than clock base ≡ false
    → ((delta_from positive negative clock base).positive ≡ [])
      × ((delta_from positive negative clock base).negative ≡ [])
unfolding delta_from
delta_from-none positive negative clock base h =
    rw (delta_loop-none positive negative clock base _ h) (refl, refl)

-- The base of the second reply is not behind the clock of the first.
second_base_not_behind :
    (mine theirs : Counts)
    → Distinct mine
    → IsNonneg mine
    → Distinct theirs
    → IsNonneg theirs
    → clock_newer_than mine (merge_clock theirs (merge_clock mine theirs)) ≡ false
second_base_not_behind mine theirs dm hm dt ht =
    let d1 = merge_clock-Distinct mine theirs dm in
    let h1 = merge_clock-IsNonneg mine theirs dm hm ht in
    (clock_newer_than_iff mine (merge_clock theirs (merge_clock mine theirs)) dm hm
        (merge_clock-IsNonneg theirs (merge_clock mine theirs) dt ht h1)).1
      (λ k. omega (
        arith,
        merge_clock_pointwise theirs (merge_clock mine theirs) k dt ht d1 h1,
        merge_clock_pointwise mine theirs k dm hm dt ht,
      ))

-- The service counts a delta reply as received when it is built: the next reply to the same sender, to an
-- update with the same clock and with no write in between, carries no entry, whether or not the first one
-- arrived.
pub repeated_reply_is_empty :
    (now later : ℕ) (update : StateUpdate) (s : Service)
    → VectorClock.IsValid s.clock
    → Distinct update.vector_clock
    → IsNonneg update.vector_clock
    → let (s', first) = build_delta_reply now update s in
      let (s'', second) = build_delta_reply later update s' in
      (second.positive_state ≡ []) × (second.negative_state ≡ [])
unfolding build_delta_reply
repeated_reply_is_empty now later update s v d h =
    let mine = state s.clock in
    let sent = merge_clock mine update.vector_clock in
    let kept : lookup (set s.last_sync_clock update.from_node_id sent) update.from_node_id
        ≡ some sent =
      lookup-set s.last_sync_clock update.from_node_id update.from_node_id sent
      ∙ rw (text_eq_refl update.from_node_id) refl in
    let same : mine ≡ s.clock.clock = unfold state in copy_into-nil s.clock.clock v.distinct in
    let reads = subst (λ c. Distinct c × IsNonneg c) (sym same) (v.distinct, v.nonneg) in
    rw kept (
      delta_from-none _ _ mine (merge_clock update.vector_clock sent)
        (second_base_not_behind mine update.vector_clock reads.0 reads.1 d h))
