-- ===== src/Sql/Columns/Texts.antt =====
-- A Go string as the list of its code points, and back: `range` over a string, string(runes).
use Prim.Native.Char.{Char, char, code, nul, IsLt, IsScalar}
use Prim.Native.Nat.{Ordering, compare}
use text.Mathlib.TextEquality.{Char-path}
use mathlib.Core.Path.{ap₂}
use tasker.Base.{ℕ, ◌≡◌, refl, List, [], ◌∷◌, map, String}
use tasker.Sql.Arrays.{Text}

abbrev pub runes : String → Text
runes String.[] = []
runes (String.◌∷◌ c s) = code c ∷ runes s

-- What makes a number a character, with the clauses of the library's own test.
abbrev BothLt : Ordering → Ordering → Type 0
BothLt Ordering.lt o = IsLt o
BothLt Ordering.eq o = ⊥
BothLt Ordering.gt o = ⊥

abbrev Scalar : Ordering → Ordering → Ordering → Type 0
Scalar Ordering.lt o p = Unit
Scalar Ordering.eq o p = BothLt o p
Scalar Ordering.gt o p = BothLt o p

dec_less : (o : Ordering) → Dec (IsLt o)
dec_less Ordering.lt = yes tt
dec_less Ordering.eq = no (λ h. h)
dec_less Ordering.gt = no (λ h. h)

dec_both : (o p : Ordering) → Dec (BothLt o p)
dec_both Ordering.lt p = dec_less p
dec_both Ordering.eq p = no (λ h. h)
dec_both Ordering.gt p = no (λ h. h)

dec_scalar : (o p q : Ordering) → Dec (Scalar o p q)
dec_scalar Ordering.lt p q = yes tt
dec_scalar Ordering.eq p q = dec_both p q
dec_scalar Ordering.gt p q = dec_both p q

-- A number that is no character becomes U+0000; the runes of a string never do.
abbrev char_or_nul : (n : ℕ) → Dec (IsScalar n) → Char
char_or_nul n (yes h) = char n h
char_or_nul n (no _) = nul

unfoldable char_of : ℕ → Char
unfolding dec_scalar dec_both dec_less
char_of n = char_or_nul n (dec_scalar (compare n 55296) (compare 57343 n) (compare n 1114112))

unfoldable pub string_of : Text → String
unfolding char_of
string_of [] = String.[]
string_of (c ∷ cs) = String.◌∷◌ (char_of c) (string_of cs)

char_or_nul-scalar : (n : ℕ) (h : IsScalar n) (d : Dec (IsScalar n)) → char_or_nul n d ≡ char n h
char_or_nul-scalar n h (yes k) = Char-path (char n k) (char n h) refl
char_or_nul-scalar n h (no k) = absurd (k h)

char_of-code : (c : Char) → char_of (code c) ≡ c
unfolding char_of
char_of-code (char n h) =
    char_or_nul-scalar n h (dec_scalar (compare n 55296) (compare 57343 n) (compare n 1114112))

pub string_of-runes : (s : String) → string_of (runes s) ≡ s
unfolding string_of
string_of-runes String.[] = refl
string_of-runes (String.◌∷◌ c s) = ap₂ String.◌∷◌ (char_of-code c) (string_of-runes s)

pub strings-runes : (l : List String) → map string_of (map runes l) ≡ l
strings-runes [] = refl
strings-runes (s ∷ l) = ap₂ ◌∷◌ (string_of-runes s) (strings-runes l)
