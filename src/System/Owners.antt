-- ===== src/System/Owners.antt =====
-- Which node a key belongs to: what stands behind its last colon.
use distributed_counter.Base.{
  Text, ◌≡◌, refl, true, [], ◌∷◌, ◌++◌, arith, ◌==◌, if◌then◌else◌, contains_byte,
  contains_byte-append, Bool-cases, inl, inr,
}
use distributed_counter.Crdt.Keys.{colon, counter_key, is_default}
use distributed_counter.Crdt.Keys.Ownership.{NoColon}

-- The text behind the last colon.
abbrev pub last_part : Text → Text
last_part [] = []
last_part (c ∷ s) =
    let rest = last_part s in
    if contains_byte s colon then rest else if c == colon then s else c ∷ s

last_part-NoColon : (s : Text) → NoColon s → last_part s ≡ s
unfolding contains_byte
last_part-NoColon [] h = refl
last_part-NoColon (c ∷ s) h = ground arith

has_colon : (name id : Text) → contains_byte (name ++ (colon ∷ id)) colon ≡ true
unfolding contains_byte
has_colon name id = rw contains_byte-append (ground arith)

last_part-append : (name id : Text) → NoColon id → last_part (name ++ (colon ∷ id)) ≡ id
unfolding contains_byte
last_part-append [] id h = rw h refl
last_part-append (c ∷ name) id h = rw (has_colon name id) (last_part-append name id h)

-- A node without a colon in its id owns every key that it writes.
pub last_part-counter_key : (name id : Text) → NoColon id → last_part (counter_key name id) ≡ id
unfolding counter_key
last_part-counter_key name id h = elim (Bool-cases (is_default name)) [
  | inl e ↦ rw e (last_part-NoColon id h)
  | inr e ↦ rw e (last_part-append name id h)
]
