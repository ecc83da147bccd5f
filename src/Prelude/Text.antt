-- ===== src/Prelude/Text.antt =====
-- Text as its bytes: literals, decimal numbers, splitting and joining.
use Prim.Native.Nat.{ℕ, zero, suc, ◌+◌, ◌*◌, ◌-◌, ◌/◌, ◌%◌, ◌^◌, ◌<◌, ◌≤◌}
use Prim.Native.Char.{code}
use Prim.Native.String.{String}
use mathlib.Core.Path.{◌≡◌, refl, ap, sym, ◌∙◌}
use mathlib.Core.Logic.{inl, inr}
use mathlib.Core.Bool.{Bool, true, false, ◌&&◌, ◌||◌}
use mathlib.Core.Option.{Option, none, some}
use mathlib.Core.List.{List, [], ◌∷◌, ◌++◌, append_assoc, append-nil}
use native.Mathlib.Omega.{arith}
use neural_file_system.Prelude.Tests.{Bool-cases, ltb, leb, ◌==◌, if◌then◌else◌}
use neural_file_system.Prelude.Lists.{Bytes}

-- The code points of a literal: its bytes, if it is ASCII. `String` has its own `[]` and `∷`.
abbrev pub text : String → Bytes
text String.[] = []
text (String.◌∷◌ c s) = code c ∷ text s

-- `to_string` of a number. Its value and one more is enough fuel.
decimal : ℕ → ℕ → Bytes
decimal zero n = []
decimal (suc fuel) n = elim (ltb n 10) [
  | true ↦ (b'0' + n) ∷ []
  | false ↦ decimal fuel (n / 10) ++ (b'0' + n % 10) ∷ []
]

unfoldable pub print : ℕ → Bytes
unfolding decimal
print n = decimal (suc n) n

is_digit : ℕ → Bool
is_digit c = leb b'0' c && leb c b'9'

parse_digits : ℕ → Bytes → Option ℕ
parse_digits n [] = some n
parse_digits n (c ∷ cs) = elim (is_digit c) [
  | true ↦ parse_digits (n * 10 + (c - b'0')) cs
  | false ↦ none
]

in_word : Option ℕ → Option ℕ
in_word none = none
in_word (some n) = if ltb n (2 ^ 64) then some n else none

some_digits : Bytes → Option ℕ
some_digits [] = none
some_digits (c ∷ cs) = in_word (parse_digits 0 (c ∷ cs))

-- `parse` of a `usize`: a sign is allowed, and the number has to fit 64 bits.
unfoldable pub parse_usize : Bytes → Option ℕ
unfolding is_digit parse_digits in_word some_digits
parse_usize [] = none
parse_usize (c ∷ cs) = if c == b'+' then some_digits cs else some_digits (c ∷ cs)

push_char : ℕ → List Bytes → List Bytes
push_char c [] = (c ∷ []) ∷ []
push_char c (part ∷ parts) = (c ∷ part) ∷ parts

-- `split` of a text by the characters that meet a test: there is always a part.
unfoldable pub split_by : (ℕ → Bool) → Bytes → List Bytes
unfolding push_char
split_by test [] = [] ∷ []
split_by test (c ∷ cs) =
    let rest = split_by test cs in if test c then [] ∷ rest else push_char c rest

unfoldable pub join : Bytes → List Bytes → Bytes
join sep [] = []
join sep (p ∷ []) = p
join sep (p ∷ q ∷ ps) = p ++ sep ++ join sep (q ∷ ps)

unfoldable pub starts_with : Bytes → Bytes → Bool
starts_with [] s = true
starts_with (c ∷ p) [] = false
starts_with (c ∷ p) (d ∷ s) = (c == d) && starts_with p s

-- `contains`, of a text.
unfoldable pub contains_text : Bytes → Bytes → Bool
contains_text p [] = starts_with p []
contains_text p (c ∷ s) = starts_with p (c ∷ s) || contains_text p s

last_digit :
    (n : ℕ) (rest : Bytes) → parse_digits (n / 10) ((b'0' + n % 10) ∷ rest) ≡ parse_digits n rest
unfolding parse_digits is_digit
last_digit n rest =
    let d : is_digit (b'0' + n % 10) ≡ true = ground arith in
    let e : n / 10 * 10 + (b'0' + n % 10 - b'0') ≡ n = omega arith in rw (d, e, parse_digits) refl

-- A number is read back as it was printed.
parse_digits-decimal :
    (fuel n : ℕ) (rest : Bytes)
    → n < fuel
    → parse_digits 0 (decimal fuel n ++ rest) ≡ parse_digits n rest
unfolding decimal parse_digits is_digit
parse_digits-decimal zero n rest h = absurd (omega arith)
parse_digits-decimal (suc fuel) n rest h = elim (Bool-cases (ltb n 10)) [
  | inl l ↦ rw (l, decimal) (ground arith)
  | inr l ↦
      let d = (b'0' + n % 10) ∷ [] in
      let big : 10 ≤ n = ground arith in
      rw (l, decimal)
        (ap (parse_digits 0) (append_assoc (decimal fuel (n / 10)) d rest)
          ∙ parse_digits-decimal fuel (n / 10) (d ++ rest) (omega arith)
          ∙ last_digit n rest)
]

-- The first character of a number is a digit.
decimal_head :
    (fuel n : ℕ) → n < fuel → (c : ℕ) × (cs : Bytes) × (decimal fuel n ≡ c ∷ cs) × (b'0' ≤ c)
unfolding decimal
decimal_head zero n h = absurd (omega arith)
decimal_head (suc fuel) n h = elim (Bool-cases (ltb n 10)) [
  | inl l ↦ (b'0' + n, [], rw (l, decimal) refl, omega arith)
  | inr l ↦
      let big : 10 ≤ n = ground arith in
      let (c, cs, e, d) = decimal_head fuel (n / 10) (omega arith) in
      (c, cs ++ (b'0' + n % 10) ∷ [], rw (l, decimal, e) refl, d)
]

read_digits :
    (c n : ℕ) (cs : Bytes)
    → parse_digits 0 (c ∷ cs) ≡ some n
    → b'0' ≤ c
    → n < 2 ^ 64
    → parse_usize (c ∷ cs) ≡ some n
unfolding parse_usize some_digits in_word
read_digits c n cs e d h = ground arith

-- A number of 64 bits is read back as it was printed.
pub parse_usize-print : (n : ℕ) → n < 2 ^ 64 → parse_usize (print n) ≡ some n
unfolding print parse_digits
parse_usize-print n h =
    let (c, cs, e, d) = decimal_head (suc n) n (omega arith) in
    let value : parse_digits 0 (c ∷ cs) ≡ some n =
      ap (parse_digits 0) (sym (append-nil (decimal (suc n) n) ∙ e))
      ∙ parse_digits-decimal (suc n) n [] (omega arith) in
    ap parse_usize e ∙ read_digits c n cs value d h
