-- ===== src/Crdt/PnCounter/Names.antt =====
-- internal/crdt/pn_counter.go: Names, the sorted list of the names of the keys.
use mathlib.Core.Option
use distributed_counter.Base.{
  Text, ◌≡◌, refl, ◌∙◌, Bool, true, false, not, ℕ, ◌<◌, ◌⊎◌, zero, suc, ap, ◌++◌, contains_byte,
  has_prefix, ◌&&◌, ◌||◌, Option, none, some, List, [], ◌∷◌, arith, if◌then◌else◌, ltb, ◌==◌,
  Bool-cases, Option-cases, inl, inr, text_eq, text_eq_iff, index_byte, GoMap, set, take,
}
use distributed_counter.Crdt.Counts.{Counts}
use distributed_counter.Crdt.Keys.{colon}
use distributed_counter.Crdt.PnCounter.{PnCounter}

-- s < t, byte by byte
unfoldable pub text_lt : Text → Text → Bool
text_lt s [] = false
text_lt [] (_ ∷ _) = true
text_lt (c ∷ s) (d ∷ t) = let rest = text_lt s t in ltb c d || (c == d && rest)

-- if i := strings.IndexByte(k, ':'); i > 0 { k[:i] }
unfoldable pub name_of_key : Text → Option Text
name_of_key k = elim (index_byte k colon) [
  | none ↦ none
  | some i ↦ if ltb 0 i then some (take i k) else none
]

-- seen[n] = true
abbrev pub mark : Option Text → GoMap Bool → GoMap Bool
mark none seen = seen
mark (some n) seen = set seen n true

unfoldable pub collect : Counts → GoMap Bool → GoMap Bool
unfolding name_of_key
collect [] seen = seen
collect ((k, v) ∷ m) seen = collect m (mark (name_of_key k) seen)

unfoldable pub keys : GoMap Bool → List Text
keys [] = []
keys ((k, v) ∷ m) = k ∷ keys m

-- sort.Strings
unfoldable pub insert : Text → List Text → List Text
insert n [] = n ∷ []
insert n (x ∷ xs) = let rest = insert n xs in if text_lt x n then x ∷ rest else n ∷ x ∷ xs

unfoldable pub sort_strings : List Text → List Text
unfolding insert
sort_strings [] = []
sort_strings (x ∷ xs) = insert x (sort_strings xs)

-- Names
unfoldable pub names : PnCounter → List Text
unfolding collect keys sort_strings
names p = sort_strings (keys (collect p.negative (collect p.positive [])))

abbrev pub has : Text → List Text → Bool
has n [] = false
has n (x ∷ xs) = let rest = has n xs in if text_eq x n then true else rest

abbrev is_named : Text → Option Text → Bool
is_named n none = false
is_named n (some x) = text_eq x n

-- The key carries the name before its first colon: it starts with the name and a colon, and the name, which
-- is not empty, has none.
abbrev pub carries : Text → Text → Bool
carries n k =
    not (text_eq n []) && (not (contains_byte n colon) && has_prefix k (n ++ (colon ∷ [])))

-- A key of the map carries the name.
abbrev pub is_used : Text → Counts → Bool
is_used n [] = false
is_used n ((k, v) ∷ m) = let rest = is_used n m in if carries n k then true else rest

abbrev IsOrdered : List Text → Type 0
IsOrdered [] = Unit
IsOrdered (x ∷ []) = Unit
IsOrdered (x ∷ y ∷ xs) = (text_lt y x ≡ false) × IsOrdered (y ∷ xs)

text_lt_asymm : (s t : Text) → text_lt s t ≡ true → text_lt t s ≡ false
unfolding text_lt
text_lt_asymm [] [] h = refl
text_lt_asymm s [] h = cc
text_lt_asymm [] (_ ∷ _) h = refl
text_lt_asymm (c ∷ s) (d ∷ t) h = ground (arith, text_lt_asymm s t)

insert-IsOrdered : (n : Text) (xs : List Text) → IsOrdered xs → IsOrdered (insert n xs)
unfolding insert
insert-IsOrdered n [] h = tt
insert-IsOrdered n (x ∷ []) h = elim (Bool-cases (text_lt x n)) [
  | inl e ↦ rw e (text_lt_asymm x n e, tt)
  | inr e ↦ rw e (e, tt)
]
insert-IsOrdered n (x ∷ y ∷ xs) h = elim (Bool-cases (text_lt x n)) [
  | inl e ↦ elim (Bool-cases (text_lt y n)) [
    | inl f ↦ rw (e, f) (h.0, rw f at (insert-IsOrdered n (y ∷ xs) h.1))
    | inr f ↦ rw (e, f) (text_lt_asymm x n e, (f, h.1))
  ]
  | inr e ↦ rw e (e, h)
]

has-insert :
    (j n : Text) (xs : List Text) → has j (insert n xs) ≡ (if text_eq n j then true else has j xs)
unfolding insert
has-insert j n [] = refl
has-insert j n (x ∷ xs) = ground (arith, has-insert j n xs)

pub has-sort : (j : Text) (xs : List Text) → has j (sort_strings xs) ≡ has j xs
unfolding sort_strings
has-sort j [] = refl
has-sort j (x ∷ xs) = has-insert j x (sort_strings xs) ∙ ground (arith, has-sort j xs)

sort-IsOrdered : (xs : List Text) → IsOrdered (sort_strings xs)
unfolding sort_strings
sort-IsOrdered [] = tt
sort-IsOrdered (x ∷ xs) = insert-IsOrdered x (sort_strings xs) (sort-IsOrdered xs)

pub has-set :
    (seen : GoMap Bool) (n j : Text)
    → has j (keys (set seen n true)) ≡ (text_eq n j || has j (keys seen))
unfolding keys set
has-set [] n j = ground arith
has-set ((i, w) ∷ seen) n j =
    ground (arith, has-set seen n j, text_eq_iff i n, text_eq_iff i j, text_eq_iff n j)

-- The text before the first `b`, where there is one.
abbrev before_byte : Text → ℕ → Option Text
before_byte k b = Option.map (λ i. take i k) (index_byte k b)

is_named-before_byte :
    (n k : Text) (b : ℕ)
    → is_named n (before_byte k b) ≡ (not (contains_byte n b) && has_prefix k (n ++ (b ∷ [])))
unfolding index_byte contains_byte has_prefix text_eq
is_named-before_byte [] [] b = ground arith
is_named-before_byte (d ∷ n) [] b = ground arith
is_named-before_byte [] (c ∷ k) b = elim (Option-cases (index_byte k b)) [
  | inl e ↦ rw e (ground arith)
  | inr (i, e) ↦ rw e (ground arith)
]
is_named-before_byte (d ∷ n) (c ∷ k) b =
    let rest = is_named-before_byte n k b in
    elim (Option-cases (index_byte k b)) [
      | inl e ↦ rw e (ground (arith, rw e at rest))
      | inr (i, e) ↦ rw e (ground (arith, rw e at rest))
    ]

abbrev name_at : Option ℕ → Text → Option Text
name_at none k = none
name_at (some i) k = if ltb 0 i then some (take i k) else none

name_of_key-name_at : (k : Text) → name_of_key k ≡ name_at (index_byte k colon) k
unfolding name_of_key
name_of_key-name_at k = elim (Option-cases (index_byte k colon)) [
  | inl e ↦ rw (name_of_key, e) refl
  | inr (i, e) ↦ rw (name_of_key, e) refl
]

-- A name that is taken at an index is not empty.
is_named-name_at :
    (n : Text) (c : ℕ) (k : Text) (o : Option ℕ) (b : Bool)
    → is_named n (Option.map (λ i. take i (c ∷ k)) o) ≡ b
    → is_named n (name_at o (c ∷ k)) ≡ (not (text_eq n []) && b)
unfolding text_eq
is_named-name_at n c k none b h = ground (arith, h)
is_named-name_at [] c k (some zero) b h = ground (arith, h)
is_named-name_at (d ∷ n) c k (some zero) b h = ground (arith, h)
is_named-name_at [] c k (some (suc i)) b h = ground (arith, h)
is_named-name_at (d ∷ n) c k (some (suc i)) b h = ground (arith, h)

is_named-carries : (n k : Text) → is_named n (name_of_key k) ≡ carries n k
unfolding index_byte has_prefix
is_named-carries n [] =
    ap (is_named n) (name_of_key-name_at []) ∙ ground (arith, is_named-before_byte n [] colon)
is_named-carries n (c ∷ k) =
    ap (is_named n) (name_of_key-name_at (c ∷ k))
    ∙ is_named-name_at n c k (index_byte (c ∷ k) colon) _ (is_named-before_byte n (c ∷ k) colon)

has-mark :
    (o : Option Text) (seen : GoMap Bool) (j : Text)
    → has j (keys (mark o seen)) ≡ (is_named j o || has j (keys seen))
has-mark none seen j = refl
has-mark (some n) seen j = has-set seen n j

has-collect :
    (m : Counts) (seen : GoMap Bool) (j : Text)
    → has j (keys (collect m seen)) ≡ (is_used j m || has j (keys seen))
unfolding collect
has-collect [] seen j = refl
has-collect ((k, v) ∷ m) seen j =
    has-collect m (mark (name_of_key k) seen) j
    ∙ ground (arith, has-mark (name_of_key k) seen j, is_named-carries j k)

-- The lexicographic order of texts by their bytes.
abbrev pub IsUpTo : Text → Text → Type 0
IsUpTo [] t = Unit
IsUpTo (c ∷ s) [] = ⊥
IsUpTo (c ∷ s) (d ∷ t) = (c < d) ⊎ ((c ≡ d) × IsUpTo s t)

abbrev pub IsSorted : List Text → Type 0
IsSorted [] = Unit
IsSorted (x ∷ []) = Unit
IsSorted (x ∷ y ∷ xs) = IsUpTo x y × IsSorted (y ∷ xs)

text_lt-IsUpTo : (s t : Text) → text_lt t s ≡ false → IsUpTo s t
unfolding text_lt
text_lt-IsUpTo [] t h = tt
text_lt-IsUpTo (c ∷ s) [] h = absurd (cc h)
text_lt-IsUpTo (c ∷ s) (d ∷ t) h = elim (Bool-cases (ltb c d)) [
  | inl e ↦ inl (ground (arith, e))
  | inr e ↦ inr ((ground (arith, e, h), text_lt-IsUpTo s t (ground (arith, e, h))))
]

ordered-IsSorted : (xs : List Text) → IsOrdered xs → IsSorted xs
ordered-IsSorted [] h = tt
ordered-IsSorted (x ∷ []) h = tt
ordered-IsSorted (x ∷ y ∷ xs) h = (text_lt-IsUpTo x y h.0, ordered-IsSorted (y ∷ xs) h.1)

pub names_are_the_used_ones :
    (p : PnCounter)
    → IsSorted (names p)
      × ((n : Text) → has n (names p) ≡ (is_used n p.positive || is_used n p.negative))
unfolding names
names_are_the_used_ones p = (
  ordered-IsSorted _ (sort-IsOrdered (keys (collect p.negative (collect p.positive [])))),
  λ n. has-sort n _ ∙ has-collect p.negative _ n ∙ ground (arith, has-collect p.positive [] n),
)
