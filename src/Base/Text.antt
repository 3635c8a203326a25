-- ===== src/Base/Text.antt =====
-- Go strings, as lists of code points, and what the program calls of the package `strings`.
use Prim.Native.Char.{code}
use Prim.Native.String.{String}
use Prim.Native.Nat.{ℕ, zero, suc, ◌+◌, ◌/◌, ◌%◌}
use mathlib.Core.Path.{◌≡◌, refl}
use mathlib.Core.Bool.{Bool, true, false, ◌&&◌, ◌||◌}
use mathlib.Core.List.{List, [], ◌∷◌, ◌++◌, reverse}
use native.Mathlib.Omega.{arith}
use native.Mathlib.Decide.{ℕ_discrete}
use tx_submitter.Base.Tests.{if◌then◌else◌, ◌==ℕ◌, ltb, leb}
use tx_submitter.Base.Equality.{Eq}

abbrev pub Text : Type 0
Text = List ℕ

abbrev pub codes : String → Text
codes String.[] = []
codes (String.◌∷◌ c s) = code c ∷ codes s

Text-discrete : Discrete Text
Text-discrete = hlevel ℕ_discrete

-- Shut in proofs, where a split on `s == t` gives the equation or its negation.
instance unfoldable pub text_eq : Eq Text
unfolding Text-discrete ℕ_discrete
text_eq = record { dec = Text-discrete }

-- `strings.HasPrefix`
unfoldable pub has_prefix : Text → Text → Bool
has_prefix [] s = true
has_prefix (c ∷ p) [] = false
has_prefix (c ∷ p) (d ∷ s) = c ==ℕ d && has_prefix p s

-- `strings.Contains`
unfoldable pub contains : Text → Text → Bool
unfolding has_prefix
contains [] p = has_prefix p []
contains (c ∷ s) p = has_prefix p (c ∷ s) || contains s p

abbrev cons_field : ℕ → List Text → List Text
cons_field c [] = (c ∷ []) ∷ []
cons_field c (f ∷ fs) = (c ∷ f) ∷ fs

-- `strings.Split` for a separator of one character; the result is never empty.
unfoldable pub split : ℕ → Text → List Text
split sep [] = [] ∷ []
split sep (c ∷ s) = let rest = split sep s in if c ==ℕ sep then [] ∷ rest else cons_field c rest

unfoldable pub trim_left : (ℕ → Bool) → Text → Text
trim_left cut [] = []
trim_left cut (c ∷ s) = let rest = trim_left cut s in if cut c then rest else c ∷ s

-- `strings.TrimFunc`
unfoldable pub trim : (ℕ → Bool) → Text → Text
unfolding trim_left
trim cut s = reverse (trim_left cut (reverse (trim_left cut s)))

-- `unicode.IsSpace`
unfoldable pub is_space : ℕ → Bool
is_space c =
    (leb 9 c && leb c 13)
    || c ==ℕ 32
    || c ==ℕ 0x85
    || c ==ℕ 0xa0
    || c ==ℕ 0x1680
    || (leb 0x2000 c && leb c 0x200a)
    || c ==ℕ 0x2028
    || c ==ℕ 0x2029
    || c ==ℕ 0x202f
    || c ==ℕ 0x205f
    || c ==ℕ 0x3000

-- `strings.TrimSpace`
unfoldable pub trim_space : Text → Text
unfolding trim is_space
trim_space s = trim is_space s

-- `strings.Contains` of any of the texts, as a loop over a slice tests it.
abbrev pub contains_any : Text → List Text → Bool
contains_any s [] = false
contains_any s (p ∷ ps) = contains s p || contains_any s ps

unfoldable pub digits_from : ℕ → ℕ → Text → Text
digits_from zero n acc = acc
digits_from (suc f) n acc =
    let rest = digits_from f (n / 10) ((b'0' + n % 10) ∷ acc) in
    if ltb n 10 then (b'0' + n) ∷ acc else rest

-- `%d` of a number that is not negative.
unfoldable pub decimal : ℕ → Text
unfolding digits_from
decimal n = digits_from (suc n) n []

split_test : split b'/' (codes "a//b/") ≡ codes "a" ∷ [] ∷ codes "b" ∷ [] ∷ []
unfolding split
split_test = refl

trim_test : trim_space (codes " ab c ") ≡ codes "ab c"
unfolding trim_space
trim_test = refl

decimal_test : decimal 120 ≡ codes "120"
unfolding decimal
decimal_test = refl

contains_test : contains (codes "tx failed: tx_bad_seq.") (codes "tx_bad_seq") ≡ true
unfolding contains
contains_test = refl

has_prefix-append : (p s t : Text) → has_prefix p s ≡ true → has_prefix p (s ++ t) ≡ true
unfolding has_prefix
has_prefix-append [] s t h = refl
has_prefix-append (c ∷ p) [] t h = ground arith
has_prefix-append (c ∷ p) (d ∷ s) t h = ground (arith, has_prefix-append p s t)

has_prefix-nil : (p t : Text) → has_prefix p [] ≡ true → has_prefix p t ≡ true
unfolding has_prefix
has_prefix-nil [] t h = refl
has_prefix-nil (c ∷ p) t h = ground arith
