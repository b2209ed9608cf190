-- ===== src/Service/Listing/Listed.antt =====
-- What ListCounters lists.
use distributed_counter.Base.{
  Text, Option, none, some, ap, ◌<◌, ◌≡◌, refl, ◌∙◌, Bool, true, false, ◌&&◌, ◌||◌, List, [], ◌∷◌,
  arith, if◌then◌else◌, text_eq, text_eq_iff, GoMap, lookup, set, max, ◌^◌,
}
use distributed_counter.Crdt.PnCounter.Names.{
  names, keys, has, has-set, is_used, names_are_the_used_ones,
}
use distributed_counter.Service.State.{Service}
use distributed_counter.Service.Handlers.{default_counter}
use distributed_counter.Service.Listing.{
  CounterInfo, shard, tags_of, contains_tag, build_counter_info, listed_names, list_loop,
  insert_info, sort_infos, list_counters, mark_all, mark_tagged,
}

-- Every counter has a shard of the configured ones, and the only one where there is one.
pub shard_in_range :
    (name : Text) (s : Service) → s.counter_shards < 2 ^ 31 → shard name s < max 1 s.counter_shards
unfolding shard
shard_in_range name s h = ground arith

-- The names of the list.
abbrev pub lists : Text → List CounterInfo → Bool
lists n [] = false
lists n (c ∷ cs) = let rest = lists n cs in if text_eq c.name n then true else rest

lists-insert :
    (n : Text) (c : CounterInfo) (cs : List CounterInfo)
    → lists n (insert_info c cs) ≡ (if text_eq c.name n then true else lists n cs)
unfolding insert_info
lists-insert n c [] = refl
lists-insert n c (x ∷ xs) = ground (arith, lists-insert n c xs)

lists-sort : (n : Text) (cs : List CounterInfo) → lists n (sort_infos cs) ≡ lists n cs
unfolding sort_infos
lists-sort n [] = refl
lists-sort n (c ∷ cs) = lists-insert n c (sort_infos cs) ∙ ground (arith, lists-sort n cs)

-- A list of tags, where there is one, has the tag.
abbrev pub carries_tag : Text → Option (List Text) → Bool
carries_tag tag none = false
carries_tag tag (some tags) = has tag tags

-- What the request asks for: any counter, or one that carries the tag.
abbrev pub passes : Text → Service → Text → Bool
passes tag s n = text_eq tag [] || carries_tag tag (lookup s.tags n)

contains_tag-has : (tags : List Text) (tag : Text) → contains_tag tags tag ≡ has tag tags
unfolding contains_tag
contains_tag-has [] tag = refl
contains_tag-has (t ∷ tags) tag =
    ap (λ b. if text_eq t tag then true else b) (contains_tag-has tags tag)

contains_tag-carries_tag :
    (tag : Text) (o : Option (List Text)) → contains_tag (tags_of o) tag ≡ carries_tag tag o
unfolding contains_tag
contains_tag-carries_tag tag none = refl
contains_tag-carries_tag tag (some tags) = contains_tag-has tags tag

lists-loop :
    (n tag : Text) (s : Service) (ns : List Text)
    → lists n (list_loop tag s ns) ≡ (has n ns && passes tag s n)
unfolding list_loop build_counter_info
lists-loop n tag s [] = refl
lists-loop n tag s (x ∷ ns) =
    ground (
      arith,
      lists-loop n tag s ns,
      text_eq_iff x n,
      contains_tag-carries_tag tag (lookup s.tags x),
    )

has-mark_all :
    (n : Text) (ns : List Text) (seen : GoMap Bool)
    → has n (keys (mark_all ns seen)) ≡ (has n ns || has n (keys seen))
unfolding mark_all
has-mark_all n [] seen = refl
has-mark_all n (x ∷ ns) seen =
    has-mark_all n ns (set seen x true) ∙ ground (arith, has-set seen x n)

-- The counter has an entry in the map of tags.
abbrev pub is_tagged : Text → GoMap (List Text) → Bool
is_tagged n [] = false
is_tagged n ((x, tags) ∷ m) = let rest = is_tagged n m in if text_eq x n then true else rest

has-mark_tagged :
    (n : Text) (m : GoMap (List Text)) (seen : GoMap Bool)
    → has n (keys (mark_tagged m seen)) ≡ (is_tagged n m || has n (keys seen))
unfolding mark_tagged
has-mark_tagged n [] seen = refl
has-mark_tagged n ((x, tags) ∷ m) seen =
    has-mark_tagged n m (set seen x true) ∙ ground (arith, has-set seen x n)

-- Adding the default counter on a test loses no name.
has_default :
    (b : Bool) (seen : GoMap Bool) (n : Text)
    → has n (keys seen) ≡ true
    → has n (keys (if b then set seen default_counter true else seen)) ≡ true
has_default true seen n h = has-set seen default_counter n ∙ ground arith
has_default false seen n h = h

listed_used :
    (n : Text) (s : Service)
    → (is_tagged n s.tags || (is_used n s.counter.positive || is_used n s.counter.negative)) ≡ true
    → has n (keys (listed_names s)) ≡ true
unfolding listed_names
listed_used n s h =
    let found = mark_tagged s.tags (mark_all (names s.counter) []) in
    let in_found : has n (keys found) ≡ true =
      has-mark_tagged n s.tags (mark_all (names s.counter) [])
      ∙ ground
          (arith, has-mark_all n (names s.counter) [], (names_are_the_used_ones s.counter).1 n) in
    has_default _ _ n (has_default _ found n in_found)

-- A name that some key of either map carries before its first colon, or that has an entry in the map of
-- tags, is listed if the request has no tag; if it has one, exactly if the tag is among the name's tags.
pub list_counters-lists_the_used :
    (tag n : Text) (s : Service)
    → (is_tagged n s.tags || (is_used n s.counter.positive || is_used n s.counter.negative)) ≡ true
    → lists n (list_counters tag s) ≡ passes tag s n
unfolding list_counters
list_counters-lists_the_used tag n s h =
    lists-sort n (list_loop tag s (keys (listed_names s)))
    ∙ lists-loop n tag s (keys (listed_names s))
    ∙ rw (listed_used n s h) refl
