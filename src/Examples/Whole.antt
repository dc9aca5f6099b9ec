-- ===== src/Examples/Whole.antt =====
-- `strtod` and `printf` on whole microseconds: decimals are not read, and not written.
use idlestat.Base.{ℕ, ◌+◌, Bool, true, false, List, [], ◌∷◌, if◌then◌else◌, map?, ltb}
use idlestat.Base.Int.{ℤ, pos, sub_ℤ, pos_part, neg_part}
use idlestat.Base.Print.{Format, print_signed}
use idlestat.Base.Scan.{Strtod, scan_number, span_digits}
use idlestat.Base.Scan.Decimal.{print_int}

abbrev skip_fraction : List ℕ → List ℕ
skip_fraction [] = []
skip_fraction (c ∷ s) = elim (ltb c 46) [
  | true ↦ c ∷ s
  | false ↦ elim (ltb 46 c) [ true ↦ c ∷ s | false ↦ (span_digits s).1 ]
]

abbrev as_whole : Bool × ℕ × List ℕ → ℤ × List ℕ
as_whole (minus, n, s) = (if minus then sub_ℤ (pos 0) (pos n) else pos n, skip_fraction s)

instance abbrev pub whole_strtod : Strtod ℤ
whole_strtod = record { strtod = λ s. map? as_whole (scan_number s) }

abbrev abs_below : ℤ → ℤ → Bool
abs_below x y = ltb (pos_part x + neg_part x) (pos_part y)

instance abbrev pub whole_format : Format ℤ
whole_format = record {
  fixed = λ n x. print_int x;
  signed_fixed = λ n x. print_signed x;
  scientific = λ x. print_int x;
  seconds = pos_part;
  microseconds = λ x. 0;
  lt_abs = abs_below;
  to_float = λ x. x;
}
