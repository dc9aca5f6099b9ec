-- ===== src/Base/Scan.antt =====
-- `sscanf` of the C library, for the conversions that idlestat uses, on a line of bytes. `%lf` reads
-- with `strtod`, which comes with the arithmetic. As in glibc, `EOF` is returned where the input ends
-- before anything was stored.
use idlestat.Base.{
  ℕ, zero, suc, ◌+◌, ◌-◌, ◌*◌, ◌/◌, ◌%◌, ◌^◌, ◌≤◌, ◌<◌, ◌≡◌, refl, Bool, true, false, Option, none,
  some, List, [], ◌∷◌, ◌++◌, if◌then◌else◌, ltb, leb, ◌==◌, ◌&&◌, ◌||◌, foldl, map?,
}
use idlestat.Base.Int.{ℤ, pos, negsuc, to_int}
use idlestat.Base.Double.{Double}
pub mod Decimal

-- What `strtod` reads, and what it leaves.
pub record Strtod (D : Type 0) : Type 0 where
  pub strtod : List ℕ → Option (D × List ℕ)

-- `blank` is white space; `skip_until c` is `%*[^c]`, `skip_word` is `%*s`, and `read_word n` is `%<n>s`.
pub data Directive : Type 0 where
  lit skip_until read_word : ℕ → Directive
  blank skip_word read_int read_uint read_char read_double : Directive

pub data Value (D : Type 0) : Type 0 where
  int_value : ℤ → Value D
  uint_value char_value : ℕ → Value D
  double_value : D → Value D
  word_value : List ℕ → Value D

pub data Scan (D : Type 0) : Type 0 where
  scan_eof : Scan D
  scanned : List (Value D) → Scan D

abbrev pub is_blank : ℕ → Bool
is_blank c = c == 32 || (leb 9 c && leb c 13)

abbrev pub is_digit : ℕ → Bool
is_digit c = leb 48 c && leb c 57

unfoldable pub skip_blanks : List ℕ → List ℕ
skip_blanks [] = []
skip_blanks (c ∷ s) = if is_blank c then skip_blanks s else c ∷ s

-- The bytes before the first one that is `stop`, and the rest.
unfoldable pub span_until : ℕ → List ℕ → List ℕ × List ℕ
span_until stop [] = ([], [])
span_until stop (c ∷ s) =
    let rest = span_until stop s in if c == stop then ([], c ∷ s) else (c ∷ rest.0, rest.1)

unfoldable pub span_word : ℕ → List ℕ → List ℕ × List ℕ
span_word zero s = ([], s)
span_word (suc n) [] = ([], [])
span_word (suc n) (c ∷ s) =
    let rest = span_word n s in if is_blank c then ([], c ∷ s) else (c ∷ rest.0, rest.1)

unfoldable pub span_digits : List ℕ → List ℕ × List ℕ
span_digits [] = ([], [])
span_digits (c ∷ s) =
    let rest = span_digits s in if is_digit c then (c ∷ rest.0, rest.1) else ([], c ∷ s)

-- The number that digits spell behind `n`.
abbrev pub value : ℕ → List ℕ → ℕ
value = foldl (λ n c. n * 10 + (c - 48))

-- A sign, whether it is a minus, and the digits.
unfoldable pub split_sign : List ℕ → Bool × List ℕ
split_sign [] = (false, [])
split_sign (c ∷ s) = if c == 45 then (true, s) else if c == 43 then (false, s) else (false, c ∷ s)

abbrev pub min_ℕ : ℕ → ℕ → ℕ
min_ℕ a b = if ltb a b then a else b

-- `strtol`, stored in an `int`.
unfoldable pub as_int : Bool → ℕ → ℤ
unfolding to_int
as_int true n = to_int ((2 ^ 32 - min_ℕ n (2 ^ 63) % 2 ^ 32) % 2 ^ 32)
as_int false n = to_int (min_ℕ n (2 ^ 63 - 1) % 2 ^ 32)

-- `strtoul`, stored in an `unsigned int`.
unfoldable pub as_uint : Bool → ℕ → ℕ
as_uint true n = if ltb n (2 ^ 64) then (2 ^ 64 - n) % 2 ^ 32 else 2 ^ 32 - 1
as_uint false n = min_ℕ n (2 ^ 64 - 1) % 2 ^ 32

-- The sign and the value of a number, and the rest; none where there is no digit.
abbrev after_digits : Bool → List ℕ × List ℕ → Option (Bool × ℕ × List ℕ)
after_digits minus ([], s) = none
after_digits minus (c ∷ cs, s) = some (minus, value 0 (c ∷ cs), s)

unfoldable pub scan_number : List ℕ → Option (Bool × ℕ × List ℕ)
unfolding split_sign span_digits
scan_number s = let r = split_sign s in after_digits r.0 (span_digits r.1)

-- The input ends, or does not match.
unfoldable pub input_failure : {D : Type 0} → List (Value D) → Scan D
input_failure [] = scan_eof
input_failure (v ∷ vs) = scanned (v ∷ vs)

-- Whether white space before the conversion is skipped.
abbrev pub skips : Directive → Bool
skips (lit _) = false
skips (skip_until _) = false
skips read_char = false
skips _ = true

abbrev pub input_of : Directive → List ℕ → List ℕ
input_of f s = if skips f then skip_blanks s else s

-- The rest, where anything was skipped.
abbrev after_span : {A : Type 0} → List ℕ × List ℕ → Option (List A × List ℕ)
after_span ([], r) = none
after_span (x ∷ xs, r) = some ([], r)

abbrev as_value :
    {D : Type 0}
    → (Bool → ℕ → Value D)
    → Option (Bool × ℕ × List ℕ)
    → Option (List (Value D) × List ℕ)
as_value f none = none
as_value f (some (minus, n, r)) = some (f minus n ∷ [], r)

module _ {D : Type 0} ⦃t : Strtod D⦄ where
  -- One directive on an input that is not empty: the value that is stored, if any, and the rest; none
  -- where it does not match.
  unfoldable pub convert : Directive → List ℕ → Option (List (Value D) × List ℕ)
  unfolding scan_number span_word span_until as_int as_uint
  convert (lit c) [] = none
  convert (lit c) (x ∷ s) = if x == c then some ([], s) else none
  convert (skip_until c) s = after_span (span_until c s)
  convert (read_word n) s = let r = span_word n s in some (word_value r.0 ∷ [], r.1)
  convert blank s = some ([], s)
  convert skip_word s = let r = span_word 256 s in some ([], r.1)
  convert read_int s = as_value (λ minus n. int_value (as_int minus n)) (scan_number s)
  convert read_uint s = as_value (λ minus n. uint_value (as_uint minus n)) (scan_number s)
  convert read_char [] = none
  convert read_char (x ∷ s) = some (char_value x ∷ [], s)
  convert read_double s = map? (λ r. (double_value r.0 ∷ [], r.1)) (t.strtod s)

  unfoldable pub scan_from : List Directive → List ℕ → List (Value D) → Scan D
  unfolding skip_blanks input_failure convert
  scan_from [] s out = scanned out
  scan_from (blank ∷ fs) s out = scan_from fs (skip_blanks s) out
  scan_from (f ∷ fs) s out = elim (input_of f s) [
    | [] ↦ input_failure out
    | x ∷ xs ↦ elim (convert f (x ∷ xs)) [
      | none ↦ scanned out
      | some (vs, r) ↦ scan_from fs r (out ++ vs)
    ]
  ]

  unfoldable pub sscanf : List ℕ → List Directive → Scan D
  unfolding scan_from
  sscanf s format = scan_from format s []
