-- ===== src/Base/Strings.antt =====
-- Go strings as lists of bytes, with what the program uses of package `strings`.
use Prim.Native.Nat.{ℕ, suc}
use Prim.Native.Char.{code}
use Prim.Native.String.{String}
use mathlib.Core.Path.{◌≡◌, refl}
use mathlib.Core.Logic.{◌≢◌, ◌↔◌}
use mathlib.Core.Bool.{Bool, true, false, ◌&&◌, ◌||◌}
use mathlib.Core.Option
use mathlib.Core.Option.{Option, none, some}
use mathlib.Core.List.{List, [], ◌∷◌, ◌++◌}
use native.Mathlib.Omega.{arith}
use distributed_counter.Base.Tests.{◌==◌, if◌then◌else◌}

abbrev pub Text : Type 0
Text = List ℕ

-- The bytes of an ASCII literal.
abbrev pub codes : String → Text
codes String.[] = []
codes (String.◌∷◌ c s) = code c ∷ codes s

-- s == t
unfoldable pub text_eq : Text → Text → Bool
text_eq [] [] = true
text_eq [] (_ ∷ _) = false
text_eq (_ ∷ _) [] = false
text_eq (c ∷ s) (d ∷ t) = c == d && text_eq s t

text_eq→eq : (s t : Text) → text_eq s t ≡ true → s ≡ t
unfolding text_eq
text_eq→eq [] [] h = refl
text_eq→eq [] (d ∷ t) h = cc
text_eq→eq (c ∷ s) [] h = cc
text_eq→eq (c ∷ s) (d ∷ t) h = ground (arith, text_eq→eq s t)

pub text_eq_refl : (s : Text) → text_eq s s ≡ true
unfolding text_eq
text_eq_refl [] = refl
text_eq_refl (c ∷ s) = ground (arith, text_eq_refl s)

pub text_eq_iff : (s t : Text) → (text_eq s t ≡ true) ↔ (s ≡ t)
text_eq_iff s t = (text_eq→eq s t, λ e. rw e (text_eq_refl t))

pub text_eq_ne : (s t : Text) → s ≢ t → text_eq s t ≡ false
text_eq_ne s t h = ground (arith, text_eq_iff s t)

-- strings.HasPrefix(s, prefix)
unfoldable pub has_prefix : Text → Text → Bool
has_prefix s [] = true
has_prefix [] (_ ∷ _) = false
has_prefix (c ∷ s) (p ∷ ps) = c == p && has_prefix s ps

-- strings.IndexByte(s, b), `none` for -1
unfoldable pub index_byte : Text → ℕ → Option ℕ
index_byte [] b = none
index_byte (c ∷ s) b = let rest = Option.map suc (index_byte s b) in if c == b then some 0 else rest

-- strings.Contains(s, string(b)) for one byte
unfoldable pub contains_byte : Text → ℕ → Bool
contains_byte [] b = false
contains_byte (c ∷ s) b = c == b || contains_byte s b

pub has_prefix-append : (p s : Text) → has_prefix (p ++ s) p ≡ true
unfolding has_prefix
has_prefix-append [] s = refl
has_prefix-append (c ∷ p) s = ground (arith, has_prefix-append p s)

pub contains_byte-append :
    (s t : Text) (b : ℕ) → contains_byte (s ++ t) b ≡ (contains_byte s b || contains_byte t b)
unfolding contains_byte
contains_byte-append [] t b = refl
contains_byte-append (c ∷ s) t b = ground (arith, contains_byte-append s t b)

-- A text with a prefix that holds the byte holds it too.
pub contains_of_prefix :
    (s p : Text) (b : ℕ)
    → has_prefix s p ≡ true
    → contains_byte p b ≡ true
    → contains_byte s b ≡ true
unfolding has_prefix contains_byte
contains_of_prefix s [] b h c = cc
contains_of_prefix [] (p ∷ ps) b h c = cc
contains_of_prefix (d ∷ s) (p ∷ ps) b h c = ground (arith, contains_of_prefix s ps b)

-- A text starts with at most one word that holds no `b` and is followed by `b`.
pub prefix_unique :
    (k m n : Text) (b : ℕ)
    → contains_byte m b ≡ false
    → contains_byte n b ≡ false
    → has_prefix k (m ++ (b ∷ [])) ≡ true
    → has_prefix k (n ++ (b ∷ [])) ≡ true
    → m ≡ n
unfolding has_prefix contains_byte
prefix_unique k [] [] b hm hn h i = refl
prefix_unique [] [] (_ ∷ _) b hm hn h i = cc
prefix_unique [] (_ ∷ _) n b hm hn h i = cc
prefix_unique (e ∷ k) [] (c ∷ n) b hm hn h i = ground arith
prefix_unique (e ∷ k) (c ∷ m) [] b hm hn h i = ground arith
prefix_unique (e ∷ k) (c ∷ m) (d ∷ n) b hm hn h i = ground (arith, prefix_unique k m n b)
