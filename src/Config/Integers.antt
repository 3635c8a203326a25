-- ===== src/Config/Integers.antt =====
-- Integers in the environment: what is printed with `%d` is read back.
use mathlib.Core.List.{cons≢nil}
use tx_submitter.Base.{
  ℕ, zero, suc, ◌+◌, ◌-◌, ◌*◌, ◌/◌, ◌%◌, ◌^◌, ◌<◌, ◌≡◌, ◌≢◌, refl, sym, ap, ◌∙◌, true, some, [],
  ◌∷◌, arith, ltb, inl, inr, Bool-cases,
}
use tx_submitter.Base.Int.{ℤ, pos}
use tx_submitter.Base.Text.{Text, text_eq, decimal, digits_from}
use tx_submitter.External.{Env}
use tx_submitter.Config.{
  loaded, in_range_pos, load_int64, is_digit, parse_digits, parse_magnitude, parse_int, load_int,
}

-- The first character is a digit.
abbrev StartsWithDigit : Text → Type 0
StartsWithDigit s = (c : ℕ) × (rest : Text) × (s ≡ c ∷ rest) × (is_digit c ≡ true)

digits_from-first : (f n : ℕ) (acc : Text) → n < f → StartsWithDigit (digits_from f n acc)
unfolding digits_from
digits_from-first zero n acc h = absurd (omega (arith, h))
digits_from-first (suc f) n acc h = elim (Bool-cases (ltb n 10)) [
  | inl small ↦ (b'0' + n, acc, ground arith, ground arith)
  | inr more ↦
      let (c, rest, same, digit) =
        digits_from-first f (n / 10) ((b'0' + n % 10) ∷ acc) (ground arith) in
      (c, rest, ground (arith, same), digit)
]

parse_digits-step :
    (d k : ℕ) (acc : Text)
    → d < 10
    → parse_digits ((b'0' + d) ∷ acc) k ≡ parse_digits acc (k * 10 + d)
unfolding parse_digits
parse_digits-step d k acc h =
    let digit : is_digit (b'0' + d) ≡ true = ground arith in
    let value : b'0' + d - b'0' ≡ d = omega arith in rw (digit, value) refl

parse_digits-digits_from :
    (f n : ℕ) (acc : Text) → n < f → parse_digits (digits_from f n acc) 0 ≡ parse_digits acc n
unfolding digits_from
parse_digits-digits_from zero n acc h = absurd (omega (arith, h))
parse_digits-digits_from (suc f) n acc h = elim (Bool-cases (ltb n 10)) [
  | inl small ↦
      let below : n < 10 = ground arith in
      rw small (parse_digits-step n 0 acc below ∙ ap (parse_digits acc) (omega arith))
  | inr more ↦
      let less : n / 10 < f = ground arith in
      let digit : n % 10 < 10 = omega arith in
      rw more (
        parse_digits-digits_from f (n / 10) ((b'0' + n % 10) ∷ acc) less
        ∙ parse_digits-step (n % 10) (n / 10) acc digit
        ∙ ap (parse_digits acc) (omega arith))
]

parse_magnitude-digits : (s : Text) → StartsWithDigit s → parse_magnitude s ≡ parse_digits s 0
unfolding parse_magnitude
parse_magnitude-digits s (c, rest, same, digit) =
    ap parse_magnitude same ∙ sym (ap (λ t. parse_digits t 0) same)

parse_int-digits : (s : Text) → StartsWithDigit s → parse_int s ≡ in_range_pos (parse_magnitude s)
unfolding parse_int
parse_int-digits s (c, rest, same, digit) =
    let unsigned : parse_int (c ∷ rest) ≡ in_range_pos (parse_magnitude (c ∷ rest)) =
      ground arith in
    ap parse_int same ∙ unsigned ∙ sym (ap (λ t. in_range_pos (parse_magnitude t)) same)

in_range : (k : ℕ) → k < 2 ^ 63 → in_range_pos (parse_digits [] k) ≡ some (pos k)
unfolding parse_digits
in_range k below = ground arith

parse_int-decimal : (n : ℕ) → n < 2 ^ 63 → parse_int (decimal n) ≡ some (pos n)
unfolding decimal
parse_int-decimal n h =
    let first = digits_from-first (suc n) n [] (omega arith) in
    let value : parse_digits (digits_from (suc n) n []) 0 ≡ parse_digits [] n =
      parse_digits-digits_from (suc n) n [] (omega arith) in
    parse_int-digits (digits_from (suc n) n []) first
    ∙ ap in_range_pos (parse_magnitude-digits (digits_from (suc n) n []) first ∙ value)
    ∙ in_range n h

decimal-nonempty : (n : ℕ) → decimal n ≢ []
unfolding decimal
decimal-nonempty n gone =
    let (c, rest, same, digit) = digits_from-first (suc n) n [] (omega arith) in
    cons≢nil (sym same ∙ gone)

-- If a variable is set to the decimal text of a number below 2^63, `loadInt` and `loadInt64` return
-- that number, whatever the default is.
pub load_int-decimal :
    (e : Env) (key : Text) (default_value : ℤ) (n : ℕ)
    → n < 2 ^ 63
    → e.getenv key ≡ decimal n
    → (load_int e key default_value ≡ loaded (pos n))
      × (load_int64 e key default_value ≡ loaded (pos n))
unfolding load_int load_int64
load_int-decimal e key default_value n h set =
    let value = ap parse_int set ∙ parse_int-decimal n h in
    let given = λ (gone : e.getenv key ≡ []). decimal-nonempty n (sym set ∙ gone) in
    (ground (arith, value, given), ground (arith, value, given))
