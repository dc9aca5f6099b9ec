-- ===== src/Wakeup/Entries.antt =====
-- The entries that `find_irqinfo` and `store_irq` (idlestat.c) find and add, by interrupt.
use idlestat.Base.{
  ℕ, zero, suc, ◌+◌, ◌≡◌, refl, Bool, true, Option, none, some, List, [], ◌∷◌, ◌++◌, if◌then◌else◌,
  length, ◌≤◌, arith, ap, inl, inr, Bool-cases, ◌&&◌, eq_bytes, eq_bytes-eq, eq_bytes_refl, take,
}
use idlestat.Base.Int.{ℤ, eq_ℤ, eq_ℤ-eq}
use idlestat.Cstates.{WakeupIrq, Residency, too_long, too_short}
use idlestat.Wakeup.{namelen, is_irq, find_irqinfo, new_irq, count_trigger, trigger_at, enter_irq}

-- The sum of a counter over the entries of an interrupt.
abbrev pub tally : (WakeupIrq → ℕ) → ℤ → List ℕ → List WakeupIrq → ℕ
tally f id name [] = 0
tally f id name (x ∷ xs) = (if is_irq id name x then f x else 0) + tally f id name xs

abbrev pub same_irq : ℤ → List ℕ → ℤ → List ℕ → Bool
same_irq irqid irqname id name = eq_ℤ irqid id && eq_bytes irqname name

pub take_all : {A : Type 0} (n : ℕ) (xs : List A) → length xs ≤ n → take n xs ≡ xs
take_all zero [] l = refl
take_all zero (x ∷ xs) l = elim l [ ]
take_all (suc n) [] l = refl
take_all (suc n) (x ∷ xs) l = ap (◌∷◌ x) (take_all n xs (omega arith))

pub is_irq_same :
    (irqid : ℤ) (irqname : List ℕ) (id : ℤ) (name : List ℕ) (x : WakeupIrq)
    → is_irq irqid irqname x ≡ true
    → is_irq id name x ≡ same_irq irqid irqname id name
unfolding is_irq
is_irq_same irqid irqname id name x h =
    let e : x.id ≡ irqid = eq_ℤ-eq x.id irqid (ground arith) in
    let e' : x.name ≡ irqname = eq_bytes-eq x.name irqname (ground arith) in rw (e, e')

pub is_irq-count_trigger :
    (id : ℤ) (name : List ℕ) (r : Residency) (x : WakeupIrq)
    → is_irq id name (count_trigger r x) ≡ is_irq id name x
unfolding is_irq count_trigger
is_irq-count_trigger id name r x = ground arith

module _ (f : WakeupIrq → ℕ) (r : Residency) (by : ℕ)
    (grows : (x : WakeupIrq) → f (count_trigger r x) ≡ f x + by) where
  pub tally-trigger_at :
      (irqid : ℤ) (irqname : List ℕ) (id : ℤ) (name : List ℕ) (xs : List WakeupIrq) (i : ℕ)
      → find_irqinfo xs irqid irqname ≡ some i
      → tally f id name (trigger_at r xs i)
        ≡ tally f id name xs + (if same_irq irqid irqname id name then by else 0)
  unfolding find_irqinfo trigger_at
  tally-trigger_at irqid irqname id name [] i e = absurd (ground arith)
  tally-trigger_at irqid irqname id name (x ∷ xs) zero e =
      elim (Bool-cases (is_irq irqid irqname x)) [
        | inl k ↦ ground (
          arith,
          is_irq-count_trigger id name r x,
          is_irq_same irqid irqname id name x k,
          grows x,
        )
        | inr k ↦ absurd (ground arith)
      ]
  tally-trigger_at irqid irqname id name (x ∷ xs) (suc j) e =
      elim (Bool-cases (is_irq irqid irqname x)) [
        | inl k ↦ absurd (ground arith)
        | inr k ↦ omega (arith, tally-trigger_at irqid irqname id name xs j (ground arith))
      ]

pub tally-append :
    (f : WakeupIrq → ℕ) (id : ℤ) (name : List ℕ) (xs ys : List WakeupIrq)
    → tally f id name (xs ++ ys) ≡ tally f id name xs + tally f id name ys
tally-append f id name [] ys = omega arith
tally-append f id name (x ∷ xs) ys = omega (arith, tally-append f id name xs ys)

pub new_irq-is_irq :
    (irqid : ℤ) (irqname : List ℕ)
    → length irqname ≤ namelen
    → is_irq irqid irqname (new_irq irqid irqname) ≡ true
unfolding is_irq new_irq
new_irq-is_irq irqid irqname l =
    rw (take_all namelen irqname l) (ground (arith, eq_bytes_refl irqname))

pub find_irqinfo-append :
    (irqid : ℤ) (irqname : List ℕ) (xs : List WakeupIrq) (y : WakeupIrq)
    → find_irqinfo xs irqid irqname ≡ none
    → is_irq irqid irqname y ≡ true
    → find_irqinfo (xs ++ (y ∷ [])) irqid irqname ≡ some (length xs)
unfolding find_irqinfo
find_irqinfo-append irqid irqname [] y e k = rw k
find_irqinfo-append irqid irqname (x ∷ xs) y e k =
    ground (arith, find_irqinfo-append irqid irqname xs y)

pub find_irqinfo-none :
    (irqid : ℤ) (irqname : List ℕ) (xs : List WakeupIrq)
    → find_irqinfo xs irqid irqname ≡ none
    → tally (λ _. 1) irqid irqname xs ≡ 0
unfolding find_irqinfo
find_irqinfo-none irqid irqname [] e = refl
find_irqinfo-none irqid irqname (x ∷ xs) e = ground (arith, find_irqinfo-none irqid irqname xs)

-- The list that the trigger is counted in.
pub record IsEntered (irqid : ℤ) (irqname : List ℕ) (xs ys : List WakeupIrq) (i : ℕ) : Type 0 where
  pub found_at : find_irqinfo ys irqid irqname ≡ some i
  pub same_tally :
      (f : WakeupIrq → ℕ)
      → f (new_irq irqid irqname) ≡ 0
      → (id : ℤ) (name : List ℕ) → tally f id name ys ≡ tally f id name xs
  pub distinct :
      ((id : ℤ) (name : List ℕ) → tally (λ _. 1) id name xs ≤ 1)
      → (id : ℤ) (name : List ℕ) → tally (λ _. 1) id name ys ≤ 1

pub enter_irq-IsEntered :
    (irqid : ℤ) (irqname : List ℕ) (xs : List WakeupIrq) (o : Option ℕ)
    → length irqname ≤ namelen
    → find_irqinfo xs irqid irqname ≡ o
    → let (ys, i) = enter_irq xs irqid irqname o in IsEntered irqid irqname xs ys i
unfolding enter_irq
enter_irq-IsEntered irqid irqname xs (some i) l e = record {
  found_at = e;
  same_tally = λ f z id name. refl;
  distinct = λ h. h;
}
enter_irq-IsEntered irqid irqname xs none l e =
    let y = new_irq irqid irqname in
    let is_y = new_irq-is_irq irqid irqname l in
    record {
      found_at = find_irqinfo-append irqid irqname xs y e is_y;
      same_tally = λ f z id name. ground (arith, tally-append f id name xs (y ∷ []));
      distinct = λ h id name. elim (Bool-cases (same_irq irqid irqname id name)) [
        | inl k ↦
            let e₁ : irqid ≡ id = eq_ℤ-eq irqid id (ground arith) in
            let e₂ : irqname ≡ name = eq_bytes-eq irqname name (ground arith) in
            rw (← e₁, ← e₂)
              (ground (
                arith,
                find_irqinfo-none irqid irqname xs e,
                tally-append (λ _. 1) irqid irqname xs (y ∷ []),
              ))
        | inr k ↦ ground (
          arith,
          h id name,
          tally-append (λ _. 1) id name xs (y ∷ []),
          is_irq_same irqid irqname id name y is_y,
        )
      ];
    }

-- One entry for each interrupt at most.
abbrev pub IsDistinct : List WakeupIrq → Type 0
IsDistinct xs = (id : ℤ) (name : List ℕ) → tally (λ _. 1) id name xs ≤ 1

abbrev pub early_by : Residency → ℕ
early_by too_short = 1
early_by _ = 0

abbrev pub late_by : Residency → ℕ
late_by too_long = 1
late_by _ = 0

pub count_trigger_lem :
    (r : Residency) (x : WakeupIrq)
    → ((count_trigger r x).count ≡ x.count + 1)
      × ((count_trigger r x).early_triggers ≡ x.early_triggers + early_by r)
      × ((count_trigger r x).late_triggers ≡ x.late_triggers + late_by r)
unfolding count_trigger
count_trigger_lem r x = ground arith
