-- ===== src/Base/Double.antt =====
-- What the program does with a `double`, as an interface: there are no floating-point numbers here,
-- and every theorem holds of any arithmetic with these operations. `IsOrdered` states what IEEE
-- comparison gives for values that are not NaN; NaN is the value that is not `<=` itself.
use Prim.Native.Nat.{ℕ, ◌+◌, ◌*◌, ◌/◌}
use mathlib.Core.Path.{◌≡◌}
use mathlib.Core.Bool.{Bool, true, false}
use native.Mathlib.Omega.{arith}
use idlestat.Base.Tests.{if◌then◌else◌}
use idlestat.Base.Int.{ℤ, pos, negsuc, ltb_ℤ, leb_ℤ, add_ℤ, sub_ℤ, mul_ℤ}

pub record Double (D : Type 0) : Type 0 where
  pub nought : D
  pub dbl_max : D
  pub of_int : ℤ → D
  pub add : D → D → D
  pub sub : D → D → D
  pub mul : D → D → D
  pub div : D → D → D
  pub lt : D → D → Bool
  pub le : D → D → Bool

abbrev pub usec_per_sec : ℤ
usec_per_sec = pos 1_000_000

-- The macros `MIN`, `MAX` and `AVG`.
module _ {D : Type 0} ⦃d : Double D⦄ where
  abbrev pub min_of : D → D → D
  min_of a b = if d.lt a b then a else b

  abbrev pub max_of : D → D → D
  max_of a b = if d.lt b a then a else b

  abbrev pub avg_of : D → D → ℕ → D
  avg_of a b i = d.add a (d.div (d.sub b a) (d.of_int (pos i)))

infix 4 ◌≼◌
abbrev pub ◌≼◌ : {D : Type 0} ⦃d : Double D⦄ → D → D → Type 0
◌≼◌ ⦃d⦄ x y = d.le x y ≡ true

pub record IsOrdered (D : Type 0) ⦃d : Double D⦄ : Type 0 where
  pub le_trans : (x y z : D) → x ≼ y → y ≼ z → x ≼ z
  pub le_of_lt : (x y : D) → d.lt x y ≡ true → x ≼ y
  pub le_of_not_lt : (x y : D) → x ≼ x → y ≼ y → d.lt x y ≡ false → y ≼ x

-- Whole microseconds satisfy the interface and its laws; a division is rounded towards zero.
abbrev div_ℤ : ℤ → ℤ → ℤ
div_ℤ (pos a) (pos b) = pos (a / b)
div_ℤ (negsuc a) (pos b) = sub_ℤ (pos 0) (pos ((a + 1) / b))
div_ℤ a (negsuc b) = pos 0

instance abbrev pub whole_double : Double ℤ
whole_double = record {
  nought = pos 0;
  dbl_max = pos (10 * 1_000_000_000_000);
  of_int = λ i. i;
  add = add_ℤ;
  sub = sub_ℤ;
  mul = mul_ℤ;
  div = div_ℤ;
  lt = ltb_ℤ;
  le = leb_ℤ;
}

pub whole-IsOrdered : IsOrdered ℤ
whole-IsOrdered = ground arith
