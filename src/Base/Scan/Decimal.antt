-- ===== src/Base/Scan/Decimal.antt =====
-- `%d` and `%u` of `printf`: the decimal digits of a number, and what `sscanf` reads back.
use idlestat.Base.{
  ℕ, zero, suc, ◌+◌, ◌/◌, ◌%◌, ◌^◌, ◌≤◌, ◌<◌, ◌≡◌, ◌≢◌, refl, true, false, some, List, [], ◌∷◌,
  ◌++◌, if◌then◌else◌, ◌==◌, arith, All,
}
use idlestat.Base.Int.{ℤ, pos, negsuc, to_int}
use idlestat.Base.Scan.{
  value, is_digit, is_blank, span_digits, split_sign, scan_number, as_int, as_uint, skip_blanks,
  convert, scan_from, Strtod, Directive, read_int, read_uint, Value, int_value, uint_value,
}

-- A round writes the last digit; `fuel` is a bound on the rounds.
unfoldable pub digits : ℕ → ℕ → List ℕ → List ℕ
digits zero n out = out
digits (suc fuel) n out = elim (n == 0) [
  | true ↦ out
  | false ↦ digits fuel (n / 10) ((48 + n % 10) ∷ out)
]

unfoldable pub print_uint : ℕ → List ℕ
unfolding digits
print_uint n = if n == 0 then 48 ∷ [] else digits n n []

unfoldable pub print_int : ℤ → List ℕ
unfolding print_uint
print_int (pos n) = print_uint n
print_int (negsuc n) = 45 ∷ print_uint (suc n)

-- A rest that is no digit ends the digits.
abbrev pub EndsNumber : List ℕ → Type 0
EndsNumber [] = Unit
EndsNumber (c ∷ s) = is_digit c ≡ false

span_digits-ends : (rest : List ℕ) → EndsNumber rest → span_digits rest ≡ ([], rest)
unfolding span_digits
span_digits-ends [] h = refl
span_digits-ends (c ∷ s) h = ground arith

abbrev AllDigits : List ℕ → Type 0
AllDigits = All (λ c. is_digit c ≡ true)

span_digits-append :
    (ds rest : List ℕ) → AllDigits ds → EndsNumber rest → span_digits (ds ++ rest) ≡ (ds, rest)
unfolding span_digits
span_digits-append [] rest h e = span_digits-ends rest e
span_digits-append (c ∷ ds) rest h e = ground (arith, span_digits-append ds rest h.1 e)

-- With as much fuel as the number, every round is made.
value-digits : (fuel n : ℕ) (out : List ℕ) → n ≤ fuel → value 0 (digits fuel n out) ≡ value n out
unfolding digits
value-digits zero n out h = ground arith
value-digits (suc fuel) n out h = ground (arith, value-digits fuel (n / 10) ((48 + n % 10) ∷ out))

digits-AllDigits : (fuel n : ℕ) (out : List ℕ) → AllDigits out → AllDigits (digits fuel n out)
unfolding digits
digits-AllDigits zero n out h = h
digits-AllDigits (suc fuel) n out h =
    ground (arith, digits-AllDigits fuel (n / 10) ((48 + n % 10) ∷ out))

digits-ne-nil : (fuel n : ℕ) (out : List ℕ) → out ≢ [] → digits fuel n out ≢ []
unfolding digits
digits-ne-nil zero n out h = h
digits-ne-nil (suc fuel) n out h = ground (arith, digits-ne-nil fuel (n / 10) ((48 + n % 10) ∷ out))

-- A printed number is one digit or more, and they spell it.
record IsPrinted (s : List ℕ) (n : ℕ) : Type 0 where
  head : ℕ
  tail : List ℕ
  is : s ≡ head ∷ tail
  all : AllDigits s
  spells : value 0 s ≡ n

IsPrinted-intro : (s : List ℕ) (n : ℕ) → s ≢ [] → AllDigits s → value 0 s ≡ n → IsPrinted s n
IsPrinted-intro [] n h a v = absurd (h refl)
IsPrinted-intro (x ∷ xs) n h a v = record { head = x; tail = xs; is = refl; all = a; spells = v }

digits-positive : (n : ℕ) → digits (suc n) (suc n) [] ≢ []
unfolding digits
digits-positive n =
    ground
      (arith, digits-ne-nil n (suc n / 10) ((48 + suc n % 10) ∷ []) (λ e. absurd (ground arith)))

digits-IsPrinted : (n : ℕ) → IsPrinted (digits (suc n) (suc n) []) (suc n)
digits-IsPrinted n =
    IsPrinted-intro (digits (suc n) (suc n) []) (suc n) (digits-positive n)
      (digits-AllDigits (suc n) (suc n) [] tt) (value-digits (suc n) (suc n) [] (omega arith))

print_uint-IsPrinted : (n : ℕ) → IsPrinted (print_uint n) n
unfolding print_uint
print_uint-IsPrinted zero = IsPrinted-intro (48 ∷ []) 0 (λ e. absurd (ground arith)) (refl, tt) refl
print_uint-IsPrinted (suc n) =
    let e : (suc n == 0) ≡ false = ground arith in rw e (digits-IsPrinted n)

split_sign-digit : (c : ℕ) (s : List ℕ) → is_digit c ≡ true → split_sign (c ∷ s) ≡ (false, c ∷ s)
unfolding split_sign
split_sign-digit c s h = ground arith

scan_number-digits :
    (s rest : List ℕ) (n : ℕ)
    → IsPrinted s n
    → EndsNumber rest
    → scan_number (s ++ rest) ≡ some (false, n, rest)
unfolding scan_number
scan_number-digits [] rest n p e = absurd (ground (arith, p.is))
scan_number-digits (c ∷ cs) rest n p e =
    rw (split_sign-digit c (cs ++ rest) p.all.0)
      (rw (span_digits-append (c ∷ cs) rest p.all e) (ground (arith, p.spells)))

-- What `%u` prints is read back, whatever follows that is no digit.
pub scan_number-print :
    (n : ℕ) (rest : List ℕ)
    → EndsNumber rest
    → scan_number (print_uint n ++ rest) ≡ some (false, n, rest)
scan_number-print n rest e = scan_number-digits (print_uint n) rest n (print_uint-IsPrinted n) e

scan_from-digits :
    {D : Type 0} ⦃t : Strtod D⦄ (s rest : List ℕ) (n : ℕ) (fs : List Directive)
    (out : List (Value D))
    → IsPrinted s n
    → EndsNumber rest
    → scan_from (read_int ∷ fs) (s ++ rest) out
      ≡ scan_from fs rest (out ++ (int_value (as_int false n) ∷ []))
unfolding scan_from skip_blanks convert
scan_from-digits [] rest n fs out p e = absurd (ground (arith, p.is))
scan_from-digits (c ∷ cs) rest n fs out p e =
    let solid : is_blank c ≡ false = ground (arith, p.all.0) in
    rw (scan_from, solid) (rw (scan_number-digits (c ∷ cs) rest n p e) refl)

pub scan_from-print :
    {D : Type 0} ⦃t : Strtod D⦄ (n : ℕ) (rest : List ℕ) (fs : List Directive) (out : List (Value D))
    → EndsNumber rest
    → scan_from (read_int ∷ fs) (print_uint n ++ rest) out
      ≡ scan_from fs rest (out ++ (int_value (as_int false n) ∷ []))
scan_from-print n rest fs out e =
    scan_from-digits (print_uint n) rest n fs out (print_uint-IsPrinted n) e

-- A number in the range of `int` is stored as it is.
pub as_int-pos : (n : ℕ) → n < 2 ^ 31 → as_int false n ≡ pos n
unfolding as_int to_int
as_int-pos n h = ground arith

as_int-negsuc : (n : ℕ) → n < 2 ^ 31 → as_int true (suc n) ≡ negsuc n
unfolding as_int to_int
as_int-negsuc n h = ground arith

abbrev pub IsInt : ℤ → Type 0
IsInt (pos n) = n < 2 ^ 31
IsInt (negsuc n) = n < 2 ^ 31

scan_number-minus :
    (s rest : List ℕ) (n : ℕ)
    → IsPrinted s n
    → EndsNumber rest
    → scan_number (45 ∷ (s ++ rest)) ≡ some (true, n, rest)
unfolding scan_number split_sign
scan_number-minus [] rest n p e = absurd (ground (arith, p.is))
scan_number-minus (c ∷ cs) rest n p e =
    rw (span_digits-append (c ∷ cs) rest p.all e) (ground (arith, p.spells))

-- What `%d` prints is read back by `%d`, whatever follows that is no digit.
pub scan_from-print_int :
    {D : Type 0} ⦃t : Strtod D⦄ (i : ℤ) (rest : List ℕ) (fs : List Directive) (out : List (Value D))
    → IsInt i
    → EndsNumber rest
    → scan_from (read_int ∷ fs) (print_int i ++ rest) out
      ≡ scan_from fs rest (out ++ (int_value i ∷ []))
unfolding print_int scan_from convert skip_blanks
scan_from-print_int (pos n) rest fs out h e =
    rw (as_int-pos n h) at (scan_from-print n rest fs out e)
scan_from-print_int (negsuc n) rest fs out h e =
    rw
      (
        scan_from,
        scan_number-minus (print_uint (suc n)) rest (suc n) (print_uint-IsPrinted (suc n)) e,
      )
      (rw (as_int-negsuc n h) refl)

skip_blanks-digits : (s rest : List ℕ) (n : ℕ) → IsPrinted s n → skip_blanks (s ++ rest) ≡ s ++ rest
unfolding skip_blanks
skip_blanks-digits [] rest n p = absurd (ground (arith, p.is))
skip_blanks-digits (c ∷ cs) rest n p = ground (arith, p.all.0)

pub skip_blanks-print_int :
    (i : ℤ) (rest : List ℕ) → skip_blanks (print_int i ++ rest) ≡ print_int i ++ rest
unfolding print_int skip_blanks
skip_blanks-print_int (pos n) rest =
    skip_blanks-digits (print_uint n) rest n (print_uint-IsPrinted n)
skip_blanks-print_int (negsuc n) rest = refl

as_uint-small : (n : ℕ) → n < 2 ^ 32 → as_uint false n ≡ n
unfolding as_uint
as_uint-small n h = ground arith

scan_from-uint_digits :
    {D : Type 0} ⦃t : Strtod D⦄ (s rest : List ℕ) (n : ℕ) (fs : List Directive)
    (out : List (Value D))
    → IsPrinted s n
    → EndsNumber rest
    → n < 2 ^ 32
    → scan_from (read_uint ∷ fs) (s ++ rest) out ≡ scan_from fs rest (out ++ (uint_value n ∷ []))
unfolding scan_from skip_blanks convert
scan_from-uint_digits [] rest n fs out p e h = absurd (ground (arith, p.is))
scan_from-uint_digits (c ∷ cs) rest n fs out p e h =
    let solid : is_blank c ≡ false = ground (arith, p.all.0) in
    rw (scan_from, solid)
      (rw (scan_number-digits (c ∷ cs) rest n p e) (rw (as_uint-small n h) refl))

-- What `%u` prints is read back by `%u`, whatever follows that is no digit.
pub scan_from-print_uint :
    {D : Type 0} ⦃t : Strtod D⦄ (n : ℕ) (rest : List ℕ) (fs : List Directive) (out : List (Value D))
    → EndsNumber rest
    → n < 2 ^ 32
    → scan_from (read_uint ∷ fs) (print_uint n ++ rest) out
      ≡ scan_from fs rest (out ++ (uint_value n ∷ []))
scan_from-print_uint n rest fs out e h =
    scan_from-uint_digits (print_uint n) rest n fs out (print_uint-IsPrinted n) e h
