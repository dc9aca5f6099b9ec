-- ===== src/Reports/Factored.antt =====
-- How times and frequencies are printed: `display_factored_time`, `display_factored_freq` (utils.c), and
-- `display_factored_time_delta`, `display_int_delta` (comparison_report.c).
use idlestat.Base.{ℕ, Bool, List, [], ◌∷◌, ◌++◌, if◌then◌else◌, ◌&&◌, bytes, replicate, ltb}
use idlestat.Base.Int.{ℤ, pos, to_int, ltb_ℤ, eq_ℤ}
use idlestat.Base.Double.{Double}
use idlestat.Base.Print.{Format, pad_left, print_signed}
use idlestat.Base.Scan.Decimal.{print_uint, print_int}

module _ {D : Type 0} ⦃d : Double D⦄ ⦃f : Format D⦄ where
  abbrev pub over : D → ℕ → D
  over x n = d.div x (d.of_int (pos n))

  abbrev pub is_below : D → ℕ → Bool
  is_below x n = d.lt x (d.of_int (pos n))

  unfoldable pub display_factored_time : D → ℕ → List ℕ
  unfolding pad_left
  display_factored_time time align =
      if is_below time 1000
      then pad_left align (f.fixed 0 time ++ bytes "us")
      else if is_below time 1_000_000
      then pad_left align (f.fixed 2 (over time 1000) ++ bytes "ms")
      else pad_left align (f.fixed 2 (over time 1_000_000) ++ bytes "s")

  -- Nothing but spaces for what is too large.
  unfoldable pub display_factored_time_delta : D → ℕ → List ℕ
  unfolding pad_left
  display_factored_time_delta time align =
      if f.lt_abs time (d.of_int (pos 1000))
      then pad_left align (f.signed_fixed 0 time ++ bytes "us")
      else if f.lt_abs time (d.of_int (pos 1_000_000))
      then pad_left align (f.signed_fixed 1 (over time 1000) ++ bytes "ms")
      else if f.lt_abs time (d.of_int (pos 100_000_000_000))
      then pad_left align (f.signed_fixed 1 (over time 1_000_000) ++ bytes "s")
      else replicate (if ltb align 28 then align else 28) 32

  -- `min_time == DBL_MAX ? 0. : min_time`.
  unfoldable pub shown_min : D → D
  shown_min x = if d.le x d.dbl_max && d.le d.dbl_max x then d.of_int (pos 0) else x

-- The frequency is an `unsigned int` that becomes an `int`, and a `float` where it is divided.
unfoldable pub display_factored_freq : (D : Type 0) ⦃d : Double D⦄ ⦃f : Format D⦄ → ℕ → ℕ → List ℕ
unfolding pad_left print_int to_int
display_factored_freq D ⦃d⦄ ⦃f⦄ freq align =
    let i = to_int freq in
    if ltb_ℤ i (pos 1000)
    then pad_left align (print_int i ++ bytes "Hz")
    else if ltb_ℤ i (pos 1_000_000)
    then pad_left align (f.fixed 2 (over (f.to_float (d.of_int i)) 1000) ++ bytes "MHz")
    else pad_left align (f.fixed 2 (over (f.to_float (d.of_int i)) 1_000_000) ++ bytes "GHz")

-- `" %+*d |"`, without the sign for 0.
unfoldable pub display_int_delta : ℤ → ℕ → List ℕ
unfolding pad_left print_signed print_int
display_int_delta value align =
    32
    ∷ (pad_left align (if eq_ℤ value (pos 0) then print_int value else print_signed value)
        ++ bytes " |")

-- `"%<n>d"` of a count.
unfoldable pub column : ℕ → ℕ → List ℕ
unfolding pad_left print_uint
column n x = pad_left n (print_uint x)

-- Columns with a text between each two.
abbrev pub joined : List ℕ → List (List ℕ) → List ℕ
joined sep [] = []
joined sep (x ∷ []) = x
joined sep (x ∷ y ∷ ys) = x ++ sep ++ joined sep (y ∷ ys)
