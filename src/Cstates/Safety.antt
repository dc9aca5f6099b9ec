-- ===== src/Cstates/Safety.antt =====
-- `record_cstate_event` (idlestat.c) on valid statistics, with state numbers inside and outside the array.
use idlestat.Base.{
  ℕ, ◌≡◌, refl, true, false, Option, none, some, if◌then◌else◌, set, length, ◌<◌, ◌≤◌, arith, ap,
  ◌∙◌, sym, inl, inr, All-get_elem?, length-set, get_elem?_total, Bool-cases,
}
use idlestat.Base.Int.{ℤ, pos, negsuc, minus_one, leb_ℤ, eq_ℤ, eq_ℤ-eq}
use idlestat.Base.Double.{Double, usec_per_sec}
use idlestat.Cstates.{
  maxcstate, CpuidleData, CpuidleCstate, CpuidleCstates, elem_at, set_at, cstate_begin, add_stay,
  write_stay, finish_stay, end_stay, cstate_end, record_cstate_event,
}
use idlestat.Cstates.Valid.{
  IsStateNumber, IsState, IsOpen, IsValid, cstate_begin-IsValid, cstate_begin_fault, judge_total,
  left-IsValid, write_stay-IsState, add_stay-IsState,
}

module _ {D : Type 0} ⦃d : Double D⦄ where
  abbrev Ends : Option (CpuidleCstates D) → Type 0
  Ends o = (t : CpuidleCstates D) × (o ≡ some t) × IsValid t × (t.current_cstate ≡ minus_one)

  finish_stay-Ends :
      (s : CpuidleCstates D) (k : ℕ) (c : CpuidleCstate D) (x : CpuidleData D) (us : D)
      → IsValid s
      → s.current_cstate ≡ pos k
      → IsState c
      → c.nrdata < length c.stays
      → Ends (finish_stay s c x us)
  unfolding finish_stay
  finish_stay-Ends s k c x us h cur ok_c l =
      let w = write_stay c (record x { duration = us }) in
      let room : w.nrdata < length w.stays =
        omega (arith, length-set c.stays c.nrdata (record x { duration = us })) in
      let (r, eq, j) = judge_total s w us k h cur in
      (
        record s {
          cstate = set s.cstate k (add_stay r.0 us);
          actual_residency = r.1;
          current_cstate = minus_one;
        },
        rw eq (
            ap
              (λ i. some (record s {
                cstate = set_at s.cstate i (add_stay r.0 us);
                actual_residency = r.1;
                current_cstate = minus_one;
              }))
              cur),
        left-IsValid s k (add_stay r.0 us) r.1 h (
            add_stay-IsState w r.0 us (write_stay-IsState c (record x { duration = us }) ok_c) room
              j),
        refl,
      )

  end_stay-Ends :
      (time : D) (s : CpuidleCstates D) (k : ℕ) (c : CpuidleCstate D) (x : CpuidleData D)
      → IsValid s
      → s.current_cstate ≡ pos k
      → IsState c
      → c.nrdata < length c.stays
      → Ends (end_stay time s c x)
  unfolding end_stay
  end_stay-Ends time s k c x h cur ok_c l =
      let y = record x { end = time; duration = d.sub time x.begin } in
      elim (Bool-cases (d.le y.duration (d.of_int (pos 0)))) [
        | inl e ↦ rw e (
          record s { cstate = set s.cstate k (write_stay c y); current_cstate = minus_one },
          ap
              (λ i. some (record s {
                cstate = set_at s.cstate i (write_stay c y);
                current_cstate = minus_one;
              }))
              cur,
          left-IsValid s k (write_stay c y) s.actual_residency h (write_stay-IsState c y ok_c),
          refl,
        )
        | inr e ↦
            rw e (finish_stay-Ends s k c y (d.mul y.duration (d.of_int usec_per_sec)) h cur ok_c l)
      ]

  cstate_end-Ends :
      (time : D) (s : CpuidleCstates D) (k : ℕ)
      → IsValid s
      → s.current_cstate ≡ pos k
      → Ends (cstate_end time s)
  unfolding cstate_end
  cstate_end-Ends time s k h cur =
      let open_k : IsOpen (pos k) s.cstate_max s.cstate = rw cur at h.opened in
      let (c, at, l) = open_k.1 in
      let (x, at_x) = get_elem?_total c.stays c.nrdata l in
      rw (ap (elem_at s.cstate) cur ∙ at, at_x)
        (end_stay-Ends time s k c x h cur (All-get_elem? IsState s.cstate k h.states at) l)

  close_lem :
      (time : D) (s : CpuidleCstates D) (c : ℤ)
      → IsValid s
      → s.current_cstate ≡ c
      → Ends (if eq_ℤ s.current_cstate minus_one then some s else cstate_end time s)
  close_lem time s (pos k) h cur =
      let e : eq_ℤ s.current_cstate minus_one ≡ false = ground arith in
      rw e (cstate_end-Ends time s k h cur)
  close_lem time s (negsuc n) h cur =
      let n_is : n ≡ 0 = rw cur at h.opened in
      let e : eq_ℤ s.current_cstate minus_one ≡ true = ground arith in
      rw e (s, refl, h, cur ∙ ap negsuc n_is)

  open_lem :
      (time : D) (t : CpuidleCstates D) (state : ℤ)
      → IsValid t
      → t.current_cstate ≡ minus_one
      → IsStateNumber state
      → (u : CpuidleCstates D) × ((if eq_ℤ state minus_one
            then some t
            else cstate_begin time state t)
          ≡ some u)
        × IsValid u
        × (u.current_cstate ≡ state)
  open_lem time t (pos k) h cur l =
      let e : eq_ℤ (pos k) minus_one ≡ false = ground arith in
      rw e (cstate_begin-IsValid t time k h l)
  open_lem time t (negsuc n) h cur l =
      let e : eq_ℤ (negsuc n) minus_one ≡ true = ground arith in
      rw e (t, refl, h, cur ∙ ap negsuc (sym l))

  -- On valid statistics and for a state from -1 to 15, `record_cstate_event` touches nothing outside
  -- its arrays; the statistics stay valid, and the state recorded is the one asked for.
  pub record_cstate_event-IsValid :
      (s : CpuidleCstates D) (time : D) (state : ℤ)
      → IsValid s
      → IsStateNumber state
      → (t : CpuidleCstates D) × (record_cstate_event s time state ≡ some t)
        × IsValid t
        × (t.current_cstate ≡ state)
  unfolding record_cstate_event
  record_cstate_event-IsValid s time state h l = elim (Bool-cases (eq_ℤ state s.current_cstate)) [
    | inl e ↦ (s, rw e, h, sym (eq_ℤ-eq state s.current_cstate e))
    | inr e ↦
        let (t, closes, ok_t, off) = close_lem time s s.current_cstate h refl in
        let (u, opens, ok_u, is) = open_lem time t state ok_t off l in
        (u, rw (e, closes) opens, ok_u, is)
  ]

  -- On valid statistics, `record_cstate_event` with a state number of 16 or more, which no caller checks
  -- for, writes outside the array.
  pub record_cstate_event_fault :
      (s : CpuidleCstates D) (time : D) (k : ℕ)
      → IsValid s
      → maxcstate ≤ k
      → record_cstate_event s time (pos k) ≡ none
  unfolding record_cstate_event
  record_cstate_event_fault s time k h l =
      let (t, closes, ok_t, off) = close_lem time s s.current_cstate h refl in
      let e : eq_ℤ (pos k) s.current_cstate ≡ false = differs s.current_cstate h.opened in
      let e' : eq_ℤ (pos k) minus_one ≡ false = ground arith in rw (e, closes, e') (outside t ok_t)
    where
      differs : (i : ℤ) → IsOpen i s.cstate_max s.cstate → eq_ℤ (pos k) i ≡ false
      differs (pos j) o = below s.cstate_max h.deepest o.0
        where
          below : (m : ℤ) → IsStateNumber m → leb_ℤ (pos j) m ≡ true → eq_ℤ (pos k) (pos j) ≡ false
          below (pos m) g le = ground arith
          below (negsuc m) g le = ground arith
      differs (negsuc n) o = ground arith

      outside : (t : CpuidleCstates D) → IsValid t → cstate_begin time (pos k) t ≡ none
      outside t v = cstate_begin_fault t time k (omega (arith, v.sized))
