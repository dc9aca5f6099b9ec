-- ===== src/Base/Print.antt =====
-- `printf` of the C library, for the conversions that idlestat uses: padding, and how a `double` is
-- written.
use idlestat.Base.{
  ℕ, ◌-◌, ◌≤◌, ◌≡◌, Bool, List, ◌∷◌, ◌++◌, length, length-append, length-replicate, replicate,
  arith,
}
use idlestat.Base.Int.{ℤ, pos, negsuc}
use idlestat.Base.Scan.Decimal.{print_int}

-- `fixed n x` is `%.<n>f`, `signed_fixed n x` is `%+.<n>f`,
-- `scientific x` is `%e`; `seconds` and `microseconds` are a time that
-- is cut into two `unsigned long`s; `lt_abs x y` is `fabs(x) < y`; `to_float` rounds to a `float`.
pub record Format (D : Type 0) : Type 0 where
  pub fixed : ℕ → D → List ℕ
  pub signed_fixed : ℕ → D → List ℕ
  pub scientific : D → List ℕ
  pub seconds : D → ℕ
  pub microseconds : D → ℕ
  pub lt_abs : D → D → Bool
  pub to_float : D → D

-- `%<n>s`, `%-<n>s` and `%0<n>u`.
unfoldable pub pad_left : ℕ → List ℕ → List ℕ
pad_left n s = replicate (n - length s) 32 ++ s

unfoldable pub pad_right : ℕ → List ℕ → List ℕ
pad_right n s = s ++ replicate (n - length s) 32

unfoldable pub pad_zeros : ℕ → List ℕ → List ℕ
pad_zeros n s = replicate (n - length s) 48 ++ s

-- `%+d`.
unfoldable pub print_signed : ℤ → List ℕ
unfolding print_int
print_signed (pos n) = 43 ∷ print_int (pos n)
print_signed (negsuc n) = print_int (negsuc n)

pub length-pad_left : (n : ℕ) (s : List ℕ) → length s ≤ n → length (pad_left n s) ≡ n
unfolding pad_left
length-pad_left n s h = omega (
  arith,
  length-append (replicate (n - length s) 32) s,
  length-replicate {A = ℕ} (n - length s) 32,
)

pub length-pad_right : (n : ℕ) (s : List ℕ) → length s ≤ n → length (pad_right n s) ≡ n
unfolding pad_right
length-pad_right n s h = omega (
  arith,
  length-append s (replicate (n - length s) 32),
  length-replicate {A = ℕ} (n - length s) 32,
)
