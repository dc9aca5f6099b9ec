-- ===== src/Summary.antt =====
-- The reference for the statistics that idlestat keeps of a state (`count`/`nrdata`, `min_time`,
-- `max_time`, `avg_time`, `duration` in idlestat.h): what they are of the list of all its samples.
use idlestat.Base.{
  ℕ, suc, ◌+◌, ◌≡◌, refl, List, [], ◌∷◌, ◌++◌, foldl, arith, All, length, sym, length-append,
  Bool-cases, inl, inr,
}
use idlestat.Base.Int.{pos}
use idlestat.Base.Double.{Double, IsOrdered, min_of, max_of, avg_of, ◌≼◌}

module _ {D : Type 0} ⦃d : Double D⦄ where
  unfoldable pub least : List D → D
  least l = foldl min_of d.dbl_max l

  pub greatest : List D → D
  greatest l = foldl max_of (d.of_int (pos 0)) l

  pub total : List D → D
  total l = foldl d.add (d.of_int (pos 0)) l

  -- The running average: sample number `n` moves it by its distance over `n`.
  abbrev mean_from : ℕ → D → List D → D
  mean_from n a [] = a
  mean_from n a (x ∷ xs) = mean_from (suc n) (avg_of a x n) xs

  pub mean : List D → D
  mean l = mean_from 1 (d.of_int (pos 0)) l

  abbrev pub snoc : List D → D → List D
  snoc l x = l ++ (x ∷ [])

  foldl-snoc :
      (f : D → D → D) (a : D) (l : List D) (x : D) → foldl f a (snoc l x) ≡ f (foldl f a l) x
  foldl-snoc f a [] x = refl
  foldl-snoc f a (y ∷ ys) x = foldl-snoc f (f a y) ys x

  mean_from-snoc :
      (n : ℕ) (a : D) (l : List D) (x : D)
      → mean_from n a (snoc l x) ≡ avg_of (mean_from n a l) x (n + length l)
  mean_from-snoc n a [] x = let e : n + 0 ≡ n = omega arith in rw e
  mean_from-snoc n a (y ∷ ys) x =
      let e : n + suc (length ys) ≡ suc n + length ys = omega arith in
      rw e (mean_from-snoc (suc n) (avg_of a y n) ys x)

  -- The five numbers of a state after the samples `l`.
  pub record IsSummary (count : ℕ) (lo hi avg sum : D) (l : List D) : Type 0 where
    pub counted : count ≡ length l
    pub least_is : lo ≡ least l
    pub greatest_is : hi ≡ greatest l
    pub mean_is : avg ≡ mean l
    pub total_is : sum ≡ total l

  -- Before the first sample.
  pub IsSummary-nil :
      IsSummary 0 d.dbl_max (d.of_int (pos 0)) (d.of_int (pos 0)) (d.of_int (pos 0)) []
  unfolding least greatest mean total
  IsSummary-nil = record {
    counted = refl;
    least_is = refl;
    greatest_is = refl;
    mean_is = refl;
    total_is = refl;
  }

  -- One more sample.
  pub IsSummary-snoc :
      (n : ℕ) (lo hi avg sum : D) (l : List D) (x : D)
      → IsSummary n lo hi avg sum l
      → IsSummary
          (n + 1)
          (min_of lo x)
          (max_of hi x)
          (avg_of avg x (n + 1))
          (d.add sum x)
          (snoc l x)
  unfolding least greatest mean total
  IsSummary-snoc n lo hi avg sum l x s = record {
    counted = omega (arith, s.counted, length-append l (x ∷ []));
    least_is = rw s.least_is (sym (foldl-snoc min_of d.dbl_max l x));
    greatest_is = rw s.greatest_is (sym (foldl-snoc max_of (d.of_int (pos 0)) l x));
    mean_is =
        let e : n + 1 ≡ 1 + length l = omega (arith, s.counted) in
        rw (s.mean_is, e) (sym (mean_from-snoc 1 (d.of_int (pos 0)) l x));
    total_is = rw s.total_is (sym (foldl-snoc d.add (d.of_int (pos 0)) l x));
  }

  module _ (laws : IsOrdered D) where
    open laws use {le_trans, le_of_lt, le_of_not_lt}

    min_of-le : (a b : D) → a ≼ a → b ≼ b → (min_of a b ≼ a) × (min_of a b ≼ b)
    min_of-le a b ha hb = elim (Bool-cases (d.lt a b)) [
      | inl e ↦ rw e (ha, le_of_lt a b e)
      | inr e ↦ rw e (le_of_not_lt a b ha hb e, hb)
    ]

    le-max_of : (a b : D) → a ≼ a → b ≼ b → (a ≼ max_of a b) × (b ≼ max_of a b)
    le-max_of a b ha hb = elim (Bool-cases (d.lt b a)) [
      | inl e ↦ rw e (ha, le_of_lt b a e)
      | inr e ↦ rw e (le_of_not_lt b a hb ha e, hb)
    ]

    min_of-self : (a b : D) → a ≼ a → b ≼ b → min_of a b ≼ min_of a b
    min_of-self a b ha hb = ground arith

    max_of-self : (a b : D) → a ≼ a → b ≼ b → max_of a b ≼ max_of a b
    max_of-self a b ha hb = ground arith

    abbrev IsNumber : D → Type 0
    IsNumber x = x ≼ x

    foldl-min_of-le :
        (a : D) (l : List D)
        → a ≼ a
        → All IsNumber l
        → (foldl min_of a l ≼ a) × All (λ x. foldl min_of a l ≼ x) l
    foldl-min_of-le a [] ha hl = (ha, tt)
    foldl-min_of-le a (x ∷ xs) ha hl =
        let (p, q) = min_of-le a x ha hl.0 in
        let (r, s) = foldl-min_of-le (min_of a x) xs (min_of-self a x ha hl.0) hl.1 in
        (le_trans _ _ _ r p, (le_trans _ _ _ r q, s))

    le-foldl-max_of :
        (a : D) (l : List D)
        → a ≼ a
        → All IsNumber l
        → (a ≼ foldl max_of a l) × All (λ x. x ≼ foldl max_of a l) l
    le-foldl-max_of a [] ha hl = (ha, tt)
    le-foldl-max_of a (x ∷ xs) ha hl =
        let (p, q) = le-max_of a x ha hl.0 in
        let (r, s) = le-foldl-max_of (max_of a x) xs (max_of-self a x ha hl.0) hl.1 in
        (le_trans _ _ _ p r, (le_trans _ _ _ q r, s))

    -- The samples lie between the least and the greatest.
    pub IsSummary-bounds :
        (n : ℕ) (lo hi avg sum : D) (l : List D)
        → IsNumber d.dbl_max
        → IsNumber (d.of_int (pos 0))
        → All IsNumber l
        → IsSummary n lo hi avg sum l
        → All (λ x. lo ≼ x) l × All (λ x. x ≼ hi) l
    unfolding least greatest
    IsSummary-bounds n lo hi avg sum l hm hz hl s =
        rw (s.least_is, s.greatest_is)
          ((foldl-min_of-le d.dbl_max l hm hl).1, (le-foldl-max_of (d.of_int (pos 0)) l hz hl).1)
