-- ===== src/Api/Cursor.antt =====
-- api/routes/runs.py: the id of a frame of the event stream, and how a reader's last id is read.
use mathlib.Core.Option.{none-ne-some}
use multi_agent_ai_analyst.Prelude.{
  leb_false→lt, leb→le, ap, length, ◌∙◌, count, inr, inl, ℕ, zero, suc, ◌+◌, ◌-◌, ◌*◌, ◌/◌, ◌%◌,
  ◌≤◌, ◌<◌, ◌≡◌, refl, Bool, true, false, ◌&&◌, [], ◌∷◌, Option, none, some, All, arith, ◌==◌, leb,
  ltb, if◌then◌else◌, Bool-cases,
}
use multi_agent_ai_analyst.Prelude.Text.{
  Text, strip, lstrip, rstrip, is_space, decimal, decimal_from,
}

abbrev pub is_digit : ℕ → Bool
is_digit c = leb b'0' c && leb c b'9'

-- The digits of `int(text)`, between which single underscores may stand.
unfoldable pub digits_from : (after_digit : Bool) (value : ℕ) → Text → Option ℕ
digits_from after_digit value [] = if after_digit then some value else none
digits_from after_digit value (c ∷ s) =
    let digit = digits_from true (value * 10 + (c - b'0')) s in
    let underscore = digits_from false value s in
    if is_digit c then digit else if after_digit && c == b'_' then underscore else none

abbrev pub or_zero : Option ℕ → ℕ
or_zero none = 0
or_zero (some n) = n

-- `max(0, int(text))` of a text without white space around it, which is 0 too where `int` raises: a header holds no other digits than these.
unfoldable pub clamped_int : Text → ℕ
unfolding digits_from
clamped_int [] = 0
clamped_int (c ∷ s) =
    if c == b'+' then or_zero (digits_from false 0 s) else or_zero (digits_from false 0 (c ∷ s))

-- Python refuses to read a number of more than 4300 digits.
unfoldable pub parse_cursor : (last_event_id : Option Text) → ℕ
unfolding clamped_int strip count
parse_cursor none = 0
parse_cursor (some text) = if ltb 4300 (count is_digit text) then 0 else clamped_int (strip text)

abbrev pub IsDigits : Text → Type 0
IsDigits t = All (λ c. is_digit c ≡ true) t

is_digit-last : (n : ℕ) → is_digit (b'0' + n % 10) ≡ true
is_digit-last n = ground arith

decimal_from-IsDigits :
    (fuel n : ℕ) (digits : Text) → IsDigits digits → IsDigits (decimal_from fuel n digits)
unfolding decimal_from
decimal_from-IsDigits zero n digits h = h
decimal_from-IsDigits (suc fuel) n digits h = elim (Bool-cases (leb 10 n)) [
  | inl e ↦ rw e (decimal_from-IsDigits fuel (n / 10) ((b'0' + n % 10) ∷ digits) (ground arith, h))
  | inr e ↦ rw e (ground arith, h)
]

is_space-digit : (c : ℕ) → is_digit c ≡ true → is_space c ≡ false
unfolding is_space
is_space-digit c h = ground arith

lstrip-IsDigits : (t : Text) → IsDigits t → lstrip t ≡ t
unfolding lstrip
lstrip-IsDigits [] h = refl
lstrip-IsDigits (c ∷ t) h = rw (is_space-digit c h.0) refl

rstrip-IsDigits : (t : Text) → IsDigits t → rstrip t ≡ t
unfolding rstrip
rstrip-IsDigits [] h = refl
rstrip-IsDigits (c ∷ []) h = rw (is_space-digit c h.0) refl
rstrip-IsDigits (c ∷ d ∷ t) h = rw (rstrip, rstrip-IsDigits (d ∷ t) h.1) refl

strip-IsDigits : (t : Text) → IsDigits t → strip t ≡ t
unfolding strip
strip-IsDigits t h = rw (lstrip-IsDigits t h) (rstrip-IsDigits t h)

-- The digits of a number are read back as the number, before any digits that follow.
digits_from-decimal_from :
    (fuel n : ℕ) (rest : Text) (after_digit : Bool)
    → n < fuel
    → digits_from after_digit 0 (decimal_from fuel n rest) ≡ digits_from true n rest
unfolding digits_from decimal_from
digits_from-decimal_from zero n rest after_digit enough = absurd (omega arith)
digits_from-decimal_from (suc fuel) n rest after_digit enough = elim (Bool-cases (leb 10 n)) [
  | inl e ↦ rw e (
      digits_from-decimal_from fuel (n / 10) ((b'0' + n % 10) ∷ rest) after_digit
        (omega (arith, leb→le 10 n e))
      ∙ rw (is_digit-last n) (ap (λ m. digits_from true m rest) (omega arith)))
  | inr e ↦
      rw (e, is_digit-last n)
        (ap (λ m. digits_from true m rest) (omega (arith, leb_false→lt 10 n e)))
]

pub decimal-IsDigits : (n : ℕ) → IsDigits (decimal n)
unfolding decimal
decimal-IsDigits n = decimal_from-IsDigits (suc n) n [] tt

digits_from-decimal : (n : ℕ) → digits_from false 0 (decimal n) ≡ some n
unfolding decimal digits_from
digits_from-decimal n = digits_from-decimal_from (suc n) n [] false (omega arith)

clamped_int-IsDigits :
    (t : Text) (n : ℕ) → IsDigits t → digits_from false 0 t ≡ some n → clamped_int t ≡ n
unfolding clamped_int digits_from
clamped_int-IsDigits [] n h e = absurd (none-ne-some n e)
clamped_int-IsDigits (c ∷ t) n h e =
    let digit : (c == b'+') ≡ false = ground (arith, h.0) in rw (digit, e) refl

count-le-length : (p : ℕ → Bool) (t : Text) → count p t ≤ length t
unfolding count
count-le-length p [] = omega arith
count-le-length p (c ∷ t) = ground (arith, count-le-length p t)

-- The digits of a number are read as the number, if there are at most 4300.
pub parse_cursor-decimal : (n : ℕ) → length (decimal n) ≤ 4300 → parse_cursor (some (decimal n)) ≡ n
unfolding parse_cursor
parse_cursor-decimal n short =
    let within : ltb 4300 (count is_digit (decimal n)) ≡ false =
      ground (arith, count-le-length is_digit (decimal n), short) in
    rw (within, strip-IsDigits (decimal n) (decimal-IsDigits n))
      (clamped_int-IsDigits (decimal n) n (decimal-IsDigits n) (digits_from-decimal n))
