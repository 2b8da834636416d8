-- ===== src/Prelude/Text.antt =====
-- Python's `str` as a list of code points, with the methods of it that the program calls.
use Prim.Native.Char.{code}
use Prim.Native.String.{String}
use multi_agent_ai_analyst.Prelude.{
  arith, some, none, Option, ℕ, zero, suc, ◌+◌, ◌/◌, ◌%◌, ◌≤◌, length, ◌≡◌, refl, Bool, true, false,
  ◌&&◌, ◌||◌, List, [], ◌∷◌, ◌++◌, leb, ◌==◌, if◌then◌else◌,
}

abbrev pub Text : Type 0
Text = List ℕ

-- A literal of the source as its code points.
abbrev pub codes : String → Text
codes String.[] = []
codes (String.◌∷◌ c s) = code c ∷ codes s

unfoldable pub text_eq : Text → Text → Bool
text_eq [] [] = true
text_eq [] (d ∷ t) = false
text_eq (c ∷ s) [] = false
text_eq (c ∷ s) (d ∷ t) = c == d && text_eq s t

pub text_eq_refl : (t : Text) → text_eq t t ≡ true
unfolding text_eq
text_eq_refl [] = refl
text_eq_refl (c ∷ t) = ground (arith, text_eq_refl t)

pub text_eq→eq : (s t : Text) → text_eq s t ≡ true → s ≡ t
unfolding text_eq
text_eq→eq [] [] h = refl
text_eq→eq [] (c ∷ t) h = cc
text_eq→eq (c ∷ s) [] h = cc
text_eq→eq (c ∷ s) (d ∷ t) h = ground (arith, text_eq→eq s t)

-- `d[key]` of a dict of texts, which is `none` where the key is missing
abbrev pub lookup : Text → List (Text × Text) → Option Text
lookup key [] = none
lookup key ((k, v) ∷ rest) = if text_eq k key then some v else lookup key rest

-- `str.isspace` of one character, by Python's table of white space.
unfoldable pub is_space : ℕ → Bool
is_space c =
    (leb 9 c && leb c 13)
    || (leb 28 c && leb c 32)
    || c == 133
    || c == 160
    || c == 5760
    || (leb 8192 c && leb c 8202)
    || c == 8232
    || c == 8233
    || c == 8239
    || c == 8287
    || c == 12288

unfoldable pub lstrip : Text → Text
lstrip [] = []
lstrip (c ∷ s) = let rest = lstrip s in if is_space c then rest else c ∷ s

unfoldable pub rstrip : Text → Text
rstrip [] = []
rstrip (c ∷ s) = elim (rstrip s) [ [] ↦ if is_space c then [] else c ∷ [] | d ∷ t ↦ c ∷ d ∷ t ]

unfoldable pub strip : Text → Text
unfolding lstrip rstrip is_space
strip s = rstrip (lstrip s)

length-lstrip : (t : Text) → length (lstrip t) ≤ length t
unfolding lstrip
length-lstrip [] = omega arith
length-lstrip (c ∷ t) = ground (arith, length-lstrip t)

length-rstrip : (t : Text) → length (rstrip t) ≤ length t
unfolding rstrip
length-rstrip [] = omega arith
length-rstrip (c ∷ t) = ground (arith, length-rstrip t)

pub length-strip : (t : Text) → length (strip t) ≤ length t
unfolding strip
length-strip t = omega (arith, length-rstrip (lstrip t), length-lstrip t)

-- `s.startswith(prefix)`
unfoldable pub starts_with : Text → Text → Bool
starts_with s [] = true
starts_with [] (p ∷ ps) = false
starts_with (c ∷ s) (p ∷ ps) = c == p && starts_with s ps

-- `needle in s`
unfoldable pub contains : Text → Text → Bool
unfolding starts_with
contains [] needle = starts_with [] needle
contains (c ∷ s) needle = starts_with (c ∷ s) needle || contains s needle

-- The words of `s.split()`; `word` holds the letters of the word that is being read.
split_from : Text → Text → List Text
split_from [] [] = []
split_from (w ∷ ws) [] = (w ∷ ws) ∷ []
split_from [] (c ∷ s) =
    let here = split_from [] s in
    let more = split_from (c ∷ []) s in if is_space c then here else more
split_from (w ∷ ws) (c ∷ s) =
    let done = split_from [] s in
    let more = split_from ((w ∷ ws) ++ c ∷ []) s in if is_space c then (w ∷ ws) ∷ done else more

unfoldable pub split : Text → List Text
unfolding split_from is_space
split s = split_from [] s

-- `separator.join(parts)`
unfoldable pub join : Text → List Text → Text
join separator [] = []
join separator (part ∷ []) = part
join separator (part ∷ next ∷ parts) = part ++ (separator ++ join separator (next ∷ parts))

-- The characters that end a line for `str.splitlines`, which takes "\r\n" for one of them.
is_line_break : ℕ → Bool
is_line_break c =
    (leb 10 c && leb c 13) || (leb 28 c && leb c 30) || c == 133 || c == 8232 || c == 8233

unfoldable pub onto_line : ℕ → List Text → List Text
onto_line c [] = (c ∷ []) ∷ []
onto_line c (line ∷ lines) = (c ∷ line) ∷ lines

-- `s.splitlines()`
unfoldable pub splitlines : Text → List Text
unfolding starts_with is_line_break onto_line
splitlines [] = []
splitlines (c ∷ s) =
    let lines = splitlines s in
    if is_line_break c
    then if c == 13 && starts_with s (10 ∷ []) then lines else [] ∷ lines
    else onto_line c lines

unfoldable pub decimal_from : ℕ → ℕ → Text → Text
decimal_from zero n digits = digits
decimal_from (suc fuel) n digits =
    let digits' = (b'0' + n % 10) ∷ digits in
    let more = decimal_from fuel (n / 10) digits' in if leb 10 n then more else digits'

-- `str(n)`; a number has at most as many digits as its value, and one.
unfoldable pub decimal : ℕ → Text
unfolding decimal_from
decimal n = decimal_from (suc n) n []

decimal_example : decimal 207 ≡ codes "207"
unfolding decimal
decimal_example = refl

strip_example : strip (codes "  a b ") ≡ codes "a b"
unfolding strip
strip_example = refl

split-join_example : join (codes " ") (split (codes " to  be ")) ≡ codes "to be"
unfolding split join
split-join_example = refl
