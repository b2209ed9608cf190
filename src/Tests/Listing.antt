-- ===== src/Tests/Listing.antt =====
-- Names, ListCounters and Shard at concrete inputs.
use distributed_counter.Base.{Text, ◌≡◌, refl, ◌||◌, true, [], ◌∷◌, codes, text_eq}
use distributed_counter.Crdt.PnCounter.Names.{is_used}
use distributed_counter.Service.State.{Service, new}
use distributed_counter.Service.Listing.{fnv32a, xor_bits, list_counters}
use distributed_counter.Service.Listing.Listed.{
  lists, passes, is_tagged, list_counters-lists_the_used,
}

abbrev votes : Text
votes = codes "votes"

abbrev node : Service
node = record (new (codes "node-a")) {
  counter = record {
    positive = (codes "votes:node-a", 3) ∷ (codes "node-a", 1) ∷ [];
    negative = (codes "likes:node-b", 2) ∷ [];
    node_id = codes "node-a";
  };
  tags = (votes, codes "poll" ∷ []) ∷ [];
  counter_shards = 4;
}

-- The hash of the empty text and of "a".
fnv_test :
    (fnv32a 2_166_136_261 [] ≡ 2_166_136_261) × (fnv32a 2_166_136_261 (codes "a") ≡ 3_826_002_220)
unfolding fnv32a xor_bits
fnv_test = (refl, refl)

votes_used :
    (is_tagged votes node.tags
      || (is_used votes node.counter.positive || is_used votes node.counter.negative))
    ≡ true
unfolding text_eq
votes_used = refl

list_counters-lists_the_used_example :
    lists votes (list_counters (codes "poll") node) ≡ passes (codes "poll") node votes
list_counters-lists_the_used_example =
    list_counters-lists_the_used (codes "poll") votes node votes_used
