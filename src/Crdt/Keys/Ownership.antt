-- ===== src/Crdt/Keys/Ownership.antt =====
-- Which names own a key.
use distributed_counter.Base.{
  Text, ◌≡◌, refl, Bool, true, false, [], ◌∷◌, ◌++◌, arith, inl, inr, if◌then◌else◌, text_eq,
  text_eq_iff, has_prefix, contains_byte, contains_byte-append, prefix_unique, contains_of_prefix,
  Bool-cases,
}
use mathlib.Core.List.{append_assoc}
use mathlib.Core.Path.{fun_ext, ap}
use distributed_counter.Crdt.Keys.{colon, default_name, is_default, counter_key, key_belongs_to}

-- The same counter, by either spelling of the default name.
abbrev pub same_counter : Text → Text → Bool
same_counter a b = if is_default a then is_default b else text_eq a b

abbrev pub NoColon : Text → Type 0
NoColon s = contains_byte s colon ≡ false

contains_sep : (name s : Text) → contains_byte (name ++ (colon ∷ s)) colon ≡ true
contains_sep name s = rw contains_byte-append (unfold contains_byte in ground arith)

-- name ++ ":" ++ node starts with name ++ ":"
own_prefix : (name node : Text) → has_prefix (name ++ (colon ∷ node)) (name ++ (colon ∷ [])) ≡ true
unfolding has_prefix
own_prefix [] node = ground arith
own_prefix (c ∷ name) node = ground (arith, own_prefix name node)

no_foreign_prefix : (key name : Text) → NoColon key → has_prefix key (name ++ (colon ∷ [])) ≡ false
no_foreign_prefix key name h =
    ground (arith, contains_of_prefix key (name ++ (colon ∷ [])) colon, contains_sep name [])

default_NoColon : NoColon default_name
unfolding contains_byte
default_NoColon = refl

default_is_default : is_default default_name ≡ true
unfolding is_default text_eq
default_is_default = refl

-- No key belongs to two different counters.
pub ownership_disjoint :
    (a b k : Text)
    → NoColon a
    → NoColon b
    → same_counter a b ≡ false
    → key_belongs_to a k ≡ true
    → key_belongs_to b k ≡ false
unfolding key_belongs_to is_default
ownership_disjoint a b k ha hb ne h = ground (
  arith,
  prefix_unique k a b colon,
  prefix_unique k a default_name colon,
  prefix_unique k default_name b colon,
  no_foreign_prefix k a,
  no_foreign_prefix k b,
  default_NoColon,
  text_eq_iff a b,
  text_eq_iff a default_name,
  text_eq_iff b default_name,
)

-- `same_counter` does not tell the two spellings of the default name apart.
default_of_same : (a b : Text) → text_eq a b ≡ true → is_default a ≡ is_default b
default_of_same a b h = rw ((text_eq_iff a b).0 h)

default_key :
    (owner name node : Text)
    → NoColon node
    → is_default name ≡ true
    → key_belongs_to owner (counter_key name node) ≡ same_counter owner name
unfolding key_belongs_to counter_key
default_key owner name node hd e =
    ground (arith, no_foreign_prefix node owner hd, default_of_same owner name)

named_key :
    (owner name node : Text)
    → NoColon owner
    → NoColon name
    → is_default name ≡ false
    → key_belongs_to owner (counter_key name node) ≡ same_counter owner name
unfolding key_belongs_to counter_key
named_key owner name node ho hn e = ground (
  arith,
  contains_sep name node,
  own_prefix name node,
  text_eq_iff owner name,
  prefix_unique (name ++ (colon ∷ node)) owner name colon,
  prefix_unique (name ++ (colon ∷ node)) default_name name colon,
  default_NoColon,
  default_is_default,
)

-- A replica's share of a counter is filed under a key of that counter, and of no other.
pub key_belongs_to-counter_key :
    (owner name node : Text)
    → NoColon owner
    → NoColon name
    → NoColon node
    → key_belongs_to owner (counter_key name node) ≡ same_counter owner name
key_belongs_to-counter_key owner name node ho hn hd = elim (Bool-cases (is_default name)) [
  | inl e ↦ default_key owner name node hd e
  | inr e ↦ named_key owner name node ho hn e
]

-- The share is among the keys of its own counter for every name, with a colon or without.
pub own_key : (name node : Text) → NoColon node → key_belongs_to name (counter_key name node) ≡ true
unfolding key_belongs_to counter_key
own_key name node hd = ground (arith, own_prefix name node)

is_default-NoColon : (s : Text) → is_default s ≡ true → NoColon s
unfolding is_default
is_default-NoColon s h = elim (Bool-cases (text_eq s [])) [
  | inl e ↦ rw ((text_eq_iff s []).0 e) (unfold contains_byte in refl)
  | inr e ↦ rw ((text_eq_iff s default_name).0 (rw e at h)) default_NoColon
]

not_default : (outer inner : Text) → is_default (outer ++ (colon ∷ inner)) ≡ false
not_default outer inner = elim (Bool-cases (is_default (outer ++ (colon ∷ inner)))) [
  | inl e ↦ absurd (cc (is_default-NoColon (outer ++ (colon ∷ inner)) e, contains_sep outer inner))
  | inr e ↦ e
]

-- A counter named outer:inner files its shares under keys that the counter outer owns too.
pub nested_key :
    (outer inner node : Text)
    → is_default outer ≡ false
    → key_belongs_to outer (counter_key (outer ++ (colon ∷ inner)) node) ≡ true
unfolding key_belongs_to counter_key
nested_key outer inner node h =
    rw (h, not_default outer inner)
      (rw (append_assoc outer (colon ∷ inner) (colon ∷ node)) (own_prefix outer _))

pub same_counter_comm : (a b : Text) → same_counter a b ≡ same_counter b a
same_counter_comm a b =
    ground (arith, text_eq_iff a b, text_eq_iff b a, default_of_same a b, default_of_same b a)

both_default :
    (a b : Text) → is_default a ≡ true → is_default b ≡ true → key_belongs_to a ≡ key_belongs_to b
unfolding key_belongs_to
both_default a b ha hb = fun_ext λ k. rw (ha, hb)

-- Two spellings of one counter own the same keys.
pub same_keys : (a b : Text) → same_counter a b ≡ true → key_belongs_to a ≡ key_belongs_to b
same_keys a b h = elim (Bool-cases (is_default a)) [
  | inl e ↦ both_default a b e (rw e at h)
  | inr e ↦ ap key_belongs_to ((text_eq_iff a b).0 (rw e at h))
]
