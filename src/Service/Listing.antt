-- ===== src/Service/Listing.antt =====
-- internal/service/counter_service.go: ListCounters, CreateCounter's response and the shards of hash/fnv.
pub mod Listed
use distributed_counter.Base.{
  Text, ℕ, zero, suc, ◌+◌, ◌*◌, ◌/◌, ◌%◌, ◌^◌, Bool, true, false, ◌&&◌, ◌||◌, not, Option, none,
  some, List, [], ◌∷◌, if◌then◌else◌, leb, ◌==◌, text_eq, GoMap, lookup, set, Int64,
}
use distributed_counter.Crdt.PnCounter.{value_name}
use distributed_counter.Crdt.PnCounter.Names.{names, text_lt, keys}
use distributed_counter.Service.State.{Service}
use distributed_counter.Service.Handlers.{default_counter}

-- The exclusive or of the lowest bits.
unfoldable pub xor_bits : ℕ → ℕ → ℕ → ℕ
xor_bits zero a b = 0
xor_bits (suc bits) a b = (a + b) % 2 + 2 * xor_bits bits (a / 2) (b / 2)

-- fnv.New32a, Write and Sum32: a byte changes the low eight bits before each product.
unfoldable pub fnv32a : ℕ → Text → ℕ
unfolding xor_bits
fnv32a h [] = h
fnv32a h (b ∷ s) = fnv32a ((h / 256 * 256 + xor_bits 8 (h % 256) b) * 16_777_619 % 2 ^ 32) s

-- Shard
unfoldable pub shard : Text → Service → ℕ
unfolding fnv32a
shard name s =
    if leb s.counter_shards 1 then 0 else fnv32a 2_166_136_261 name % (s.counter_shards % 2 ^ 32)

-- s.tags[name]
abbrev pub tags_of : Option (List Text) → List Text
tags_of none = []
tags_of (some tags) = tags

unfoldable pub contains_tag : List Text → Text → Bool
contains_tag [] tag = false
contains_tag (t ∷ tags) tag =
    let rest = contains_tag tags tag in if text_eq t tag then true else rest

-- pb.CounterInfo
pub record CounterInfo : Type 0 where
  pub name : Text
  pub current_value : Int64
  pub shard : ℕ
  pub tags : List Text

unfoldable pub build_counter_info : Text → Service → CounterInfo
build_counter_info name s = record {
  name = name;
  current_value = value_name name s.counter;
  shard = shard name s;
  tags = tags_of (lookup s.tags name);
}

-- for _, n := range names { names[n] = true }
unfoldable pub mark_all : List Text → GoMap Bool → GoMap Bool
mark_all [] seen = seen
mark_all (n ∷ ns) seen = mark_all ns (set seen n true)

unfoldable pub mark_tagged : GoMap (List Text) → GoMap Bool → GoMap Bool
mark_tagged [] seen = seen
mark_tagged ((n, tags) ∷ m) seen = mark_tagged m (set seen n true)

abbrev pub is_empty {ℓ} : {A : Type ℓ} → List A → Bool
is_empty [] = true
is_empty (x ∷ xs) = false

-- The names that ListCounters goes through, before the filter.
unfoldable pub listed_names : Service → GoMap Bool
unfolding mark_all mark_tagged
listed_names s =
    let found = mark_tagged s.tags (mark_all (names s.counter) []) in
    let seen =
      if not (value_name default_counter s.counter == 0)
        || not (is_empty (tags_of (lookup s.tags default_counter)))
      then set found default_counter true
      else found in
    if is_empty seen then set seen default_counter true else seen

-- The loop over the names: a tag, if the request has one, must be the counter's.
unfoldable pub list_loop : Text → Service → List Text → List CounterInfo
unfolding contains_tag build_counter_info
list_loop tag s [] = []
list_loop tag s (n ∷ ns) =
    let rest = list_loop tag s ns in
    if not (text_eq tag []) && not (contains_tag (tags_of (lookup s.tags n)) tag)
    then rest
    else build_counter_info n s ∷ rest

-- sort.Slice by name
unfoldable pub insert_info : CounterInfo → List CounterInfo → List CounterInfo
insert_info c [] = c ∷ []
insert_info c (x ∷ xs) =
    let rest = insert_info c xs in if text_lt x.name c.name then x ∷ rest else c ∷ x ∷ xs

unfoldable pub sort_infos : List CounterInfo → List CounterInfo
unfolding insert_info
sort_infos [] = []
sort_infos (c ∷ cs) = insert_info c (sort_infos cs)

-- ListCounters
unfoldable pub list_counters : Text → Service → List CounterInfo
unfolding listed_names list_loop sort_infos
list_counters tag s = sort_infos (list_loop tag s (keys (listed_names s)))
