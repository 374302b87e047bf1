-- ===== src/Watchdog/Args/Decimals.antt =====
-- Numbers in decimal, as `parseBoundedInt` of watchdog/args.ts reads them.
use tribe.Base.{
  ◌≡◌, refl, ◌∙◌, ℕ, zero, suc, ◌+◌, ◌-◌, ◌*◌, ◌<◌, ◌≤◌, true, false, ◌||◌, [], ◌∷◌, ◌++◌, ltb,
  ◌==◌, if◌then◌else◌, Text, Bool-cases, inl, inr, arith,
}
use mathlib.Core.Bool.{false≢true}
use Prim.Native.Nat.{◌/◌, ◌%◌}
use tribe.Watchdog.Args.{
  has, all_flag_tokens, is_digit, is_int_literal, number_from, Bound, ok, parse_bounded_int,
}

-- The decimal digits of a number, one more than which is enough fuel.
unfoldable pub digits : ℕ → ℕ → Text
digits zero n = []
digits (suc fuel) n =
    let higher = digits fuel (n / 10) in
    if ltb n 10 then (b'0' + n) ∷ [] else higher ++ (b'0' + n % 10) ∷ []

unfoldable pub show : ℕ → Text
show n = digits (suc n) n

number_from-append :
    (n : ℕ) (s : Text) (c : ℕ) → number_from n (s ++ c ∷ []) ≡ number_from n s * 10 + (c - b'0')
number_from-append n [] c = refl
number_from-append n (d ∷ s) c = number_from-append (n * 10 + (d - b'0')) s c

number_from-digits : (fuel n : ℕ) → n < fuel → number_from 0 (digits fuel n) ≡ n
unfolding digits
number_from-digits zero n h = ground (arith, h)
number_from-digits (suc fuel) n h = elim (Bool-cases (ltb n 10)) [
  | inl e ↦ rw e (omega arith)
  | inr e ↦
      let big : 10 ≤ n = ground (arith, e) in
      let higher = number_from-digits fuel (n / 10) (omega arith) in
      rw e (number_from-append 0 (digits fuel (n / 10)) (b'0' + n % 10) ∙ ground (arith, higher))
]

number_from-show : (n : ℕ) → number_from 0 (show n) ≡ n
unfolding show
number_from-show n = number_from-digits (suc n) n (omega arith)

-- A text that begins with a digit and has only digits.
abbrev IsNumeral : Text → Type 0
IsNumeral s = is_int_literal s ≡ true

append-IsNumeral : (s : Text) (c : ℕ) → IsNumeral s → is_digit c ≡ true → IsNumeral (s ++ c ∷ [])
append-IsNumeral (d ∷ []) c h e = ground (arith, h, e)
append-IsNumeral (d ∷ d' ∷ s) c h e =
    ground (arith, h, append-IsNumeral (d' ∷ s) c (ground (arith, h)) e)
append-IsNumeral [] c h e = ground (arith, h)

digit-IsDigit : (n : ℕ) → n < 10 → is_digit (b'0' + n) ≡ true
digit-IsDigit n h = ground (arith, h)

digits-IsNumeral : (fuel n : ℕ) → n < fuel → IsNumeral (digits fuel n)
unfolding digits
digits-IsNumeral zero n h = ground (arith, h)
digits-IsNumeral (suc fuel) n h = elim (Bool-cases (ltb n 10)) [
  | inl e ↦ rw e (rw (digit-IsDigit n (ground (arith, e))) refl)
  | inr e ↦
      let big : 10 ≤ n = ground (arith, e) in
      rw e (
        append-IsNumeral (digits fuel (n / 10)) (b'0' + n % 10)
          (digits-IsNumeral fuel (n / 10) (omega arith)) (digit-IsDigit (n % 10) (omega arith)))
]

pub show-IsInt : (n : ℕ) → is_int_literal (show n) ≡ true
unfolding show
show-IsInt n = digits-IsNumeral (suc n) n (omega arith)

numeral-NotFlag : (s : Text) → IsNumeral s → has all_flag_tokens s ≡ false
numeral-NotFlag [] h = absurd (false≢true h)
numeral-NotFlag (c ∷ s) h = let no_dash : (b'-' == c) ≡ false = ground (arith, h) in rw no_dash refl

pub show-NotFlag : (n : ℕ) → has all_flag_tokens (show n) ≡ false
show-NotFlag n = numeral-NotFlag (show n) (show-IsInt n)

pub parse_bounded_int-show :
    (flag : Text) (bound : Bound) (n : ℕ)
    → (bound.lowest ≤ n) × (n ≤ bound.highest)
    → parse_bounded_int flag bound (show n) ≡ ok n
unfolding parse_bounded_int
parse_bounded_int-show flag bound n (l, h) =
    let read : number_from 0 (show n) ≡ n = number_from-show n in
    let int : is_int_literal (show n) ≡ true = show-IsInt n in
    let within : (ltb n bound.lowest || ltb bound.highest n) ≡ false = ground (arith, l, h) in
    rw (int, read, within) refl
