-- ===== src/Cstates/Stays.antt =====
-- The counters of one C-state against the stays that its array `data` records (idlestat.c).
use native.Mathlib.Numerals.{add-one}
use mathlib.Core.Path.{ap₂}
use idlestat.Base.{
  ℕ, zero, suc, ◌+◌, ◌≡◌, refl, Option, none, some, List, [], ◌∷◌, ◌++◌, set, take, length, ◌<◌,
  ◌≤◌, arith, ap, ◌∙◌, All, All-set, All-get_elem?, length-set, length-append, length-take_le,
}
use idlestat.Base.Int.{ℤ, pos, negsuc, add_ℤ}
use idlestat.Base.Double.{Double}
use idlestat.Summary.{IsSummary, IsSummary-snoc}
use idlestat.Cstates.{
  CpuidleData, CpuidleCstate, CpuidleCstates, Residency, elem_at, set_at, open_stay, add_stay,
  judge_late, judge, judge_next, write_stay,
}

module _ {ℓ} {A : Type ℓ} where
  pub take-append_take :
      (n : ℕ) (xs ys : List A) → n ≤ length xs → take n (take n xs ++ ys) ≡ take n xs
  take-append_take zero xs ys l = refl
  take-append_take (suc n) [] ys l = elim l [ ]
  take-append_take (suc n) (x ∷ xs) ys l = ap (◌∷◌ x) (take-append_take n xs ys (omega arith))

  pub take-set : (n : ℕ) (xs : List A) (v : A) → take n (set xs n v) ≡ take n xs
  take-set zero xs v = refl
  take-set (suc n) [] v = refl
  take-set (suc n) (x ∷ xs) v = ap (◌∷◌ x) (take-set n xs v)

  pub take-suc-set :
      (n : ℕ) (xs : List A) (v : A)
      → n < length xs
      → take (suc n) (set xs n v) ≡ take n xs ++ (v ∷ [])
  take-suc-set n [] v l = elim l [ ]
  take-suc-set zero (x ∷ xs) v l = refl
  take-suc-set (suc n) (x ∷ xs) v l = ap (◌∷◌ x) (take-suc-set n xs v (omega arith))

module _ {D : Type 0} where
  abbrev pub durations : List (CpuidleData D) → List D
  durations [] = []
  durations (x ∷ xs) = x.duration ∷ durations xs

  -- The lengths of the recorded stays, in microseconds.
  abbrev pub recorded : CpuidleCstate D → List D
  recorded c = durations (take c.nrdata c.stays)

  pub durations-append :
      (xs ys : List (CpuidleData D)) → durations (xs ++ ys) ≡ durations xs ++ durations ys
  durations-append [] ys = refl
  durations-append (x ∷ xs) ys = ap (◌∷◌ x.duration) (durations-append xs ys)

module _ {D : Type 0} ⦃d : Double D⦄ where
  -- The counters are the statistics of the recorded stays.
  pub record IsAccount (c : CpuidleCstate D) : Type 0 where
    pub room : c.nrdata ≤ length c.stays
    pub summary : IsSummary c.nrdata c.min_time c.max_time c.avg_time c.duration (recorded c)

  pub open_stay-IsAccount :
      (c : CpuidleCstate D) (time : D) → IsAccount c → IsAccount (open_stay c time)
  unfolding open_stay
  open_stay-IsAccount c time h = record {
    room = omega (
      arith,
      length-append (take c.nrdata c.stays) (_ ∷ []),
      length-take_le c.nrdata c.stays h.room,
    );
    summary = rw (take-append_take c.nrdata c.stays _ h.room) h.summary;
  }

  pub write_stay-IsAccount :
      (c : CpuidleCstate D) (x : CpuidleData D) → IsAccount c → IsAccount (write_stay c x)
  write_stay-IsAccount c x h = record {
    room = omega (arith, h.room, length-set c.stays c.nrdata x);
    summary = rw (take-set c.nrdata c.stays x) h.summary;
  }

  -- The judgement changes only the two counters of wakings.
  pub record SameStays (c e : CpuidleCstate D) : Type 0 where
    nrdata_same : e.nrdata ≡ c.nrdata
    stays_same : e.stays ≡ c.stays
    min_same : e.min_time ≡ c.min_time
    max_same : e.max_time ≡ c.max_time
    avg_same : e.avg_time ≡ c.avg_time
    duration_same : e.duration ≡ c.duration

  pub judge_late-SameStays :
      (c : CpuidleCstate D) (us : D) (tr : ℤ) → SameStays c (judge_late c us tr).0
  unfolding judge_late
  judge_late-SameStays c us tr = ground arith

  pub judge_next-SameStays :
      (s : CpuidleCstates D) (c : CpuidleCstate D) (us : D) (n : ℤ) (o : Option (CpuidleCstate D))
      (r : CpuidleCstate D × Residency)
      → elem_at s.cstate n ≡ o
      → judge_next s c us n ≡ some r
      → SameStays c r.0
  unfolding judge_next
  judge_next-SameStays s c us n none r e h = ground arith
  judge_next-SameStays s c us n (some x) r e h =
      ground (arith, judge_late-SameStays c us x.target_residency)

  pub judge-SameStays :
      (s : CpuidleCstates D) (c : CpuidleCstate D) (us : D) (r : CpuidleCstate D × Residency)
      → judge s c us ≡ some r
      → SameStays c r.0
  unfolding judge
  judge-SameStays s c us r h = ground (
    arith,
    judge_next-SameStays s c us (add_ℤ s.current_cstate (pos 1))
        (elem_at s.cstate (add_ℤ s.current_cstate (pos 1))) r refl,
  )

  pub add_stay-IsAccount :
      (c e : CpuidleCstate D) (x : CpuidleData D)
      → IsAccount c
      → c.nrdata < length c.stays
      → SameStays (write_stay c x) e
      → IsAccount (add_stay e x.duration)
  unfolding add_stay
  add_stay-IsAccount c e x h l j =
      let taken : take (e.nrdata + 1) e.stays ≡ take c.nrdata c.stays ++ (x ∷ []) =
        ap₂ take (add-one e.nrdata ∙ ap suc j.nrdata_same) j.stays_same
        ∙ take-suc-set c.nrdata c.stays x l in
      record {
        room = omega (arith, ap length j.stays_same, j.nrdata_same, length-set c.stays c.nrdata x);
        summary =
            rw
              (
                taken,
                durations-append (take c.nrdata c.stays) (x ∷ []),
                j.nrdata_same,
                j.min_same,
                j.max_same,
                j.avg_same,
                j.duration_same,
              )
              (IsSummary-snoc c.nrdata c.min_time c.max_time c.avg_time c.duration (recorded c)
                x.duration h.summary);
      }

  pub set_at-All :
      (P : CpuidleCstate D → Type 0) (cs : List (CpuidleCstate D)) (i : ℤ) (c : CpuidleCstate D)
      → All P cs
      → P c
      → All P (set_at cs i c)
  set_at-All P cs (pos k) c h p = All-set P cs k c h p
  set_at-All P cs (negsuc n) c h p = h

  pub elem_at-All :
      (P : CpuidleCstate D → Type 0) (cs : List (CpuidleCstate D)) (i : ℤ) (c : CpuidleCstate D)
      → All P cs
      → elem_at cs i ≡ some c
      → P c
  elem_at-All P cs (pos k) c h e = All-get_elem? P cs k h e
  elem_at-All P cs (negsuc n) c h e = absurd (ground arith)
