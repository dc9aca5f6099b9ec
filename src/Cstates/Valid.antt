-- ===== src/Cstates/Valid.antt =====
-- When the statistics of a CPU are valid, and the steps of `cstate_begin` and `cstate_end` (idlestat.c)
-- on one state.
use idlestat.Base.{
  ℕ, ◌+◌, ◌≡◌, refl, true, none, some, List, [], ◌∷◌, if◌then◌else◌, get_elem?, set, take, length,
  ◌<◌, ◌≤◌, arith, ap, ◌∙◌, inl, inr, All, All-set, All-get_elem?, length-set, length-append,
  length-take_le, get_elem?_total, get_elem?-none, get_elem?-set_self, Bool-cases, leb,
}
use idlestat.Base.Int.{ℤ, pos, negsuc, minus_one, ltb_ℤ, leb_ℤ, add_ℤ}
use idlestat.Base.Double.{Double}
use idlestat.Cstates.{
  maxcstate, CpuidleData, CpuidleCstate, CpuidleCstates, Residency, open_stay, cstate_begin,
  add_stay, judge_late, judge, judge_next, as_expected, too_short, write_stay,
}

-- -1 or a state number.
abbrev pub IsStateNumber : ℤ → Type 0
IsStateNumber (pos k) = k < maxcstate
IsStateNumber (negsuc n) = n ≡ 0

module _ {D : Type 0} ⦃d : Double D⦄ where
  -- The array has room for what is recorded, and no stay is judged twice.
  pub record IsState (c : CpuidleCstate D) : Type 0 where
    pub room : c.nrdata ≤ length c.stays
    pub judged : c.early_wakings + c.late_wakings ≤ c.nrdata

  -- The state that the CPU is in has an open stay, and is not deeper than the deepest so far.
  abbrev pub IsOpen : ℤ → ℤ → List (CpuidleCstate D) → Type 0
  IsOpen (pos k) deepest cs =
      (leb_ℤ (pos k) deepest ≡ true)
      × ((c : CpuidleCstate D) × (get_elem? cs k ≡ some c) × (c.nrdata < length c.stays))
  IsOpen (negsuc n) deepest cs = n ≡ 0

  pub record IsValid (s : CpuidleCstates D) : Type 0 where
    pub states : All IsState s.cstate
    pub sized : length s.cstate ≡ maxcstate
    pub deepest : IsStateNumber s.cstate_max
    pub opened : IsOpen s.current_cstate s.cstate_max s.cstate

  pub open_stay-IsState : (c : CpuidleCstate D) (time : D) → IsState c → IsState (open_stay c time)
  unfolding open_stay
  open_stay-IsState c time h = record {
    room = omega (
      arith,
      length-append (take c.nrdata c.stays) (_ ∷ []),
      length-take_le c.nrdata c.stays h.room,
    );
    judged = h.judged;
  }

  pub length-open_stay :
      (c : CpuidleCstate D) (time : D)
      → IsState c
      → (open_stay c time).nrdata < length (open_stay c time).stays
  unfolding open_stay
  length-open_stay c time h = omega (
    arith,
    length-append (take c.nrdata c.stays) (_ ∷ []),
    length-take_le c.nrdata c.stays h.room,
  )

  pub cstate_begin-IsValid :
      (s : CpuidleCstates D) (time : D) (k : ℕ)
      → IsValid s
      → k < maxcstate
      → (t : CpuidleCstates D) × (cstate_begin time (pos k) s ≡ some t)
        × IsValid t
        × (t.current_cstate ≡ pos k)
  unfolding cstate_begin
  cstate_begin-IsValid s time k h l =
      let (c, at) = get_elem?_total s.cstate k (omega (arith, h.sized)) in
      let ok_c = All-get_elem? IsState s.cstate k h.states at in
      let deepest = if ltb_ℤ (pos k) s.cstate_max then s.cstate_max else pos k in
      (
        record s {
          cstate = set s.cstate k (open_stay c time);
          cstate_max = deepest;
          current_cstate = pos k;
          wakeirq = none;
        },
        rw at,
        record {
          states = All-set IsState s.cstate k _ h.states (open_stay-IsState c time ok_c);
          sized = length-set s.cstate k _ ∙ h.sized;
          deepest = deepest-IsStateNumber s.cstate_max h.deepest;
          opened = (
            deepest-le s.cstate_max,
            (
              open_stay c time,
              get_elem?-set_self s.cstate k _ (omega (arith, h.sized)),
              length-open_stay c time ok_c,
            ),
          );
        },
        refl,
      )
    where
      deepest-IsStateNumber :
          (m : ℤ) → IsStateNumber m → IsStateNumber (if ltb_ℤ (pos k) m then m else pos k)
      deepest-IsStateNumber (pos m) g = ground arith
      deepest-IsStateNumber (negsuc m) g = ground arith

      deepest-le : (m : ℤ) → leb_ℤ (pos k) (if ltb_ℤ (pos k) m then m else pos k) ≡ true
      deepest-le m = ground arith

  pub cstate_begin_fault :
      (s : CpuidleCstates D) (time : D) (k : ℕ)
      → length s.cstate ≤ k
      → cstate_begin time (pos k) s ≡ none
  unfolding cstate_begin
  cstate_begin_fault s time k l = rw (get_elem?-none s.cstate k l)

  -- What a judgement leaves alone, and that it adds at most one.
  pub record IsJudged (c e : CpuidleCstate D) : Type 0 where
    nrdata_same : e.nrdata ≡ c.nrdata
    stays_same : e.stays ≡ c.stays
    at_most_one : e.early_wakings + e.late_wakings ≤ c.early_wakings + c.late_wakings + 1

  pub judge_late-IsJudged :
      (c : CpuidleCstate D) (us : D) (tr : ℤ) → IsJudged c (judge_late c us tr).0
  unfolding judge_late
  judge_late-IsJudged c us tr = ground arith

  pub judge_next_total :
      (s : CpuidleCstates D) (c : CpuidleCstate D) (us : D) (n : ℕ) (deepest : ℤ)
      → s.cstate_max ≡ deepest
      → IsStateNumber deepest
      → length s.cstate ≡ maxcstate
      → (r : CpuidleCstate D × Residency) × (judge_next s c us (pos n) ≡ some r) × IsJudged c r.0
  unfolding judge_next
  judge_next_total s c us n (pos m) e h l = elim (Bool-cases (leb n m)) [
    | inl k ↦
        let (x, at) = get_elem?_total s.cstate n (ground arith) in
        (
          judge_late c us x.target_residency,
          ground arith,
          judge_late-IsJudged c us x.target_residency,
        )
    | inr k ↦ ((c, as_expected), ground arith, ground arith)
  ]
  judge_next_total s c us n (negsuc m) e h l = ((c, as_expected), ground arith, ground arith)

  pub judge_total :
      (s : CpuidleCstates D) (c : CpuidleCstate D) (us : D) (k : ℕ)
      → IsValid s
      → s.current_cstate ≡ pos k
      → (r : CpuidleCstate D × Residency) × (judge s c us ≡ some r) × IsJudged c r.0
  unfolding judge
  judge_total s c us k h cur = elim (Bool-cases (d.lt us (d.of_int c.target_residency))) [
    | inl e ↦ ((record c { early_wakings = c.early_wakings + 1 }, too_short), rw e, ground arith)
    | inr e ↦
        let (r, eq, j) = judge_next_total s c us (k + 1) s.cstate_max refl h.deepest h.sized in
        (r, rw e (ap (judge_next s c us) (next k cur) ∙ eq), j)
  ]
    where
      next : (k : ℕ) → s.current_cstate ≡ pos k → add_ℤ s.current_cstate (pos 1) ≡ pos (k + 1)
      next k e = ground arith

  -- The state at `k` has been replaced and the CPU is no longer idle.
  pub left-IsValid :
      (s : CpuidleCstates D) (k : ℕ) (c : CpuidleCstate D) (r : Residency)
      → IsValid s
      → IsState c
      → IsValid
          (record s { cstate = set s.cstate k c; actual_residency = r; current_cstate = minus_one })
  left-IsValid s k c r h ok_c = record {
    states = All-set IsState s.cstate k c h.states ok_c;
    sized = length-set s.cstate k c ∙ h.sized;
    deepest = h.deepest;
    opened = refl;
  }

  pub write_stay-IsState :
      (c : CpuidleCstate D) (x : CpuidleData D) → IsState c → IsState (write_stay c x)
  write_stay-IsState c x h = record {
    room = omega (arith, h.room, length-set c.stays c.nrdata x);
    judged = h.judged;
  }

  pub add_stay-IsState :
      (c e : CpuidleCstate D) (us : D)
      → IsState c
      → c.nrdata < length c.stays
      → IsJudged c e
      → IsState (add_stay e us)
  unfolding add_stay
  add_stay-IsState c e us h l j = record {
    room = omega (arith, ap length j.stays_same, j.nrdata_same);
    judged = omega (arith, j.at_most_one, h.judged, j.nrdata_same);
  }
