-- ===== src/TraceSetup/Restore.antt =====
-- What `idlestat_init_trace` and `idlestat_restore_trace_options` (trace.c) leave enabled.
use idlestat.Base.{
  eq_bytes, ℕ, ◌≡◌, refl, Bool, true, none, some, List, [], ◌∷◌, ◌==◌, ◌&&◌, arith, All, ap, sym,
  ◌∙◌, >>=-eq-some, some-injective, Bool-cases, inl, inr,
}
use idlestat.Base.Int.{ℤ, pos, to_int}
use idlestat.TraceSetup.{
  is_enable, name_of, has_slash, Tracefs, FtsEntry, fts_err, fts_file, TraceOptions, events_scan,
  write_int, read_int, restore_events, idlestat_restore_trace_options, idlestat_store_trace_options,
  write_all, idlestat_init_trace, init_traces, init_events, buffer_size_path, event_path,
  cpuidle_event_path, cpufreq_event_path, irq_event_path, ipi_event_path,
}

abbrev pub IsEnable : List ℕ → Type 0
IsEnable p = is_enable p ≡ true

-- What the kernel documents of the files that enable events: a 1 that is written is read back, and
-- enabling one event disables no other.
pub record IsTracefs {S : Type 0} (fs : Tracefs S) : Type 0 where
  pub on : (p : List ℕ) (s : S) → is_enable p ≡ true → fs.read p (fs.put p (pos 1) s) ≡ some (pos 1)
  pub keeps :
      (p q : List ℕ) (s : S)
      → is_enable p ≡ true
      → is_enable q ≡ true
      → fs.read q s ≡ some (pos 1)
      → fs.read q (fs.put p (pos 1) s) ≡ some (pos 1)

-- Only enable files are listed.
events_scan-IsEnable :
    (es : List FtsEntry) (head paths : List (List ℕ))
    → events_scan es head ≡ some paths
    → All IsEnable head
    → All IsEnable paths
unfolding events_scan
events_scan-IsEnable [] head paths e h = rw (sym (some-injective _ _ e)) h
events_scan-IsEnable (fts_err ∷ es) head paths e h = absurd (ground arith)
events_scan-IsEnable (fts_file path none ∷ es) head paths e h =
    events_scan-IsEnable es head paths (ground arith) h
events_scan-IsEnable (fts_file path (some v) ∷ es) head paths e h =
    elim (Bool-cases (is_enable path)) [
      | inl k ↦ elim (Bool-cases (v == 49)) [
        | inl j ↦ events_scan-IsEnable es (path ∷ head) paths (ground arith) (k, h)
        | inr j ↦ events_scan-IsEnable es head paths (ground arith) h
      ]
      | inr k ↦ events_scan-IsEnable es head paths (ground arith) h
    ]

-- What was stored is the list of a scan, of enable files alone.
pub stored-IsEnable :
    {S : Type 0} (fs : Tracefs S) (entries : List FtsEntry) (s : S) (options : TraceOptions)
    → idlestat_store_trace_options fs entries s ≡ some options
    → (events_scan entries [] ≡ some options.enabled) × All IsEnable options.enabled
unfolding idlestat_store_trace_options
stored-IsEnable fs entries s options e =
    let (size, _, e1) = >>=-eq-some (read_int fs buffer_size_path s) _ e in
    let (paths, scanned, e2) = >>=-eq-some (events_scan entries []) _ e1 in
    let same : options.enabled ≡ paths =
      ap (λ (o : TraceOptions). o.enabled) (sym (some-injective _ _ e2)) in
    let all = scanned ∙ ap some (sym same) in
    (all, events_scan-IsEnable entries [] options.enabled all tt)

module _ {S : Type 0} (fs : Tracefs S) (laws : IsTracefs fs) where
  abbrev pub IsOn : S → List ℕ → Type 0
  IsOn s p = fs.read p s ≡ some (pos 1)

  write-IsOn :
      (p : List ℕ) (s : S)
      → IsEnable p
      → (write_int fs p (pos 1) s).1 ≡ true
      → IsOn (write_int fs p (pos 1) s).0 p
  unfolding write_int
  write-IsOn p s k e = ground (arith, laws.on p s k)

  write-keeps :
      (p q : List ℕ) (s : S)
      → IsEnable p
      → IsEnable q
      → IsOn s q
      → IsOn (write_int fs p (pos 1) s).0 q
  unfolding write_int
  write-keeps p q s k l h = ground (arith, laws.keeps p q s k l h)

  restore_events-keeps :
      (ps : List (List ℕ)) (s : S) (ok : Bool) (q : List ℕ)
      → All IsEnable ps
      → IsEnable q
      → IsOn s q
      → IsOn (restore_events fs ps s ok).0 q
  unfolding restore_events
  restore_events-keeps [] s ok q k l h = h
  restore_events-keeps (p ∷ ps) s ok q k l h =
      restore_events-keeps ps (write_int fs p (pos 1) s).0 (ok && (write_int fs p (pos 1) s).1) q
        k.1 l (write-keeps p q s k.0 l h)

  restore_events-ok :
      (ps : List (List ℕ)) (s : S) (ok : Bool) → (restore_events fs ps s ok).1 ≡ true → ok ≡ true
  unfolding restore_events
  restore_events-ok [] s ok e = e
  restore_events-ok (p ∷ ps) s ok e =
      let (t, written) = write_int fs p (pos 1) s in
      ground (arith, restore_events-ok ps t (ok && written) e)

  restore_events_lem :
      (ps : List (List ℕ)) (s : S) (ok : Bool)
      → All IsEnable ps
      → (restore_events fs ps s ok).1 ≡ true
      → All (IsOn (restore_events fs ps s ok).0) ps
  unfolding restore_events
  restore_events_lem [] s ok k e = tt
  restore_events_lem (p ∷ ps) s ok k e =
      let w = write_int fs p (pos 1) s in
      let both : (ok && w.1) ≡ true = restore_events-ok ps w.0 (ok && w.1) e in
      (
        restore_events-keeps ps w.0 (ok && w.1) p k.1 k.0 (write-IsOn p s k.0 (ground arith)),
        restore_events_lem ps w.0 (ok && w.1) k.1 e,
      )

  -- What is asked of an entry: nothing unless it is an event that was enabled.
  abbrev pub WasOn : (List ℕ → Type 0) → FtsEntry → Type 0
  WasOn P fts_err = Unit
  WasOn P (fts_file path none) = Unit
  WasOn P (fts_file path (some v)) = is_enable path ≡ true → v ≡ 49 → P path

  events_scan_lem :
      (P : List ℕ → Type 0) (es : List FtsEntry) (head paths : List (List ℕ))
      → events_scan es head ≡ some paths
      → All P paths
      → All P head × All (WasOn P) es
  unfolding events_scan
  events_scan_lem P [] head paths e h = (rw (some-injective _ _ e) h, tt)
  events_scan_lem P (fts_err ∷ es) head paths e h = absurd (ground arith)
  events_scan_lem P (fts_file path none ∷ es) head paths e h = elim (Bool-cases (is_enable path)) [
    | inl k ↦ absurd (ground arith)
    | inr k ↦ let (a, b) = events_scan_lem P es head paths (ground arith) h in (a, (tt, b))
  ]
  events_scan_lem P (fts_file path (some v) ∷ es) head paths e h =
      elim (Bool-cases (is_enable path)) [
        | inl k ↦ elim (Bool-cases (v == 49)) [
          | inl j ↦
              let (a, b) = events_scan_lem P es (path ∷ head) paths (ground arith) h in
              (a.1, (λ _ _. a.0, b))
          | inr j ↦
              let (a, b) = events_scan_lem P es head paths (ground arith) h in
              (a, (λ _ i. absurd (ground arith), b))
        ]
        | inr k ↦
            let (a, b) = events_scan_lem P es head paths (ground arith) h in
            (a, (λ i _. absurd (ground arith), b))
      ]

  -- Where the files that enable events are as documented (a 1 that is written is read back, and
  -- enabling an event disables no other): if the options of the tracer were stored and restoring them
  -- later reports no error, then every event that was enabled when they were stored is enabled
  -- afterwards, whatever happened in between.
  pub restore-store :
      (entries : List FtsEntry) (before after : S) (options : TraceOptions)
      → idlestat_store_trace_options fs entries before ≡ some options
      → (idlestat_restore_trace_options fs options after).1 ≡ true
      → All (WasOn (IsOn (idlestat_restore_trace_options fs options after).0)) entries
  unfolding idlestat_restore_trace_options
  restore-store entries before after options e ok =
      let (all, enabled) = stored-IsEnable fs entries before options e in
      let w = write_int fs buffer_size_path options.buffer_size after in
      (events_scan_lem _ entries [] options.enabled all
        (restore_events_lem options.enabled w.0 w.1 enabled ok)).1

  -- Writes of 1, up to the first that fails.
  abbrev ones : List (List ℕ) → List (List ℕ × ℤ)
  ones [] = []
  ones (p ∷ ps) = (p, pos 1) ∷ ones ps

  write_all-ok :
      (p : List ℕ) (v : ℤ) (l : List (List ℕ × ℤ)) (s : S)
      → (write_all fs ((p, v) ∷ l) s).1 ≡ true
      → ((write_int fs p v s).1 ≡ true)
        × ((write_all fs l (write_int fs p v s).0).1 ≡ true)
        × ((write_all fs ((p, v) ∷ l) s).0 ≡ (write_all fs l (write_int fs p v s).0).0)
  unfolding write_all
  write_all-ok p v l s e = ground arith

  write_all-keeps :
      (ps : List (List ℕ)) (s : S) (q : List ℕ)
      → All IsEnable ps
      → IsEnable q
      → (write_all fs (ones ps) s).1 ≡ true
      → IsOn s q
      → IsOn (write_all fs (ones ps) s).0 q
  write_all-keeps [] s q k l e h = unfold write_all in h
  write_all-keeps (p ∷ ps) s q k l e h =
      let (_, rest, same) = write_all-ok p (pos 1) (ones ps) s e in
      rw same
        (write_all-keeps ps (write_int fs p (pos 1) s).0 q k.1 l rest (write-keeps p q s k.0 l h))

  write_all_lem :
      (ps : List (List ℕ)) (s t : S)
      → All IsEnable ps
      → (write_all fs (ones ps) s).1 ≡ true
      → (write_all fs (ones ps) s).0 ≡ t
      → All (IsOn t) ps
  write_all_lem [] s t k e is = tt
  write_all_lem (p ∷ ps) s t k e is =
      let (first, rest, same) = write_all-ok p (pos 1) (ones ps) s e in
      (
        rw (sym is) (
            rw same (
              write_all-keeps ps (write_int fs p (pos 1) s).0 p k.1 k.0 rest
                (write-IsOn p s k.0 first))),
        write_all_lem ps (write_int fs p (pos 1) s).0 t k.1 rest (sym same ∙ is),
      )

  abbrev traced : List (List ℕ)
  traced = cpuidle_event_path ∷ cpufreq_event_path ∷ irq_event_path ∷ []

  traced-IsEnable : All IsEnable (ipi_event_path ∷ traced)
  unfolding is_enable name_of has_slash eq_bytes
  traced-IsEnable = (refl, (refl, (refl, (refl, tt))))

  init_traces_lem : (s : S) → (init_traces fs s).1 ≡ true → All (IsOn (init_traces fs s).0) traced
  init_traces_lem s e =
      let (i, (a, (b, (c, _)))) = traced-IsEnable in
      elim (Bool-cases ((write_all fs (init_events fs) s).1)) [
        | inl k ↦
            let (_, rest, same) = write_all-ok event_path (pos 0) (ones traced) s k in
            rw k (
              rw same (
                let (x, (y, (z, _))) =
                  write_all_lem traced (write_int fs event_path (pos 0) s).0 _ traced-IsEnable.1
                    rest refl in
                (
                  write-keeps ipi_event_path _ _ i a x,
                  (
                    write-keeps ipi_event_path _ _ i b y,
                    (write-keeps ipi_event_path _ _ i c z, tt),
                  ),
                )))
        | inr k ↦ absurd (ground arith)
      ]

  -- Where the files that enable events are as documented: if `idlestat_init_trace` reports no error,
  -- the events of idle states, of frequencies and of interrupts are enabled, whether or not those of
  -- IPIs are there.
  pub idlestat_init_trace_lem :
      (percpu_bufsize : ℕ) (s : S)
      → (idlestat_init_trace fs percpu_bufsize s).1 ≡ true
      → let t = (idlestat_init_trace fs percpu_bufsize s).0 in
        IsOn t cpuidle_event_path × IsOn t cpufreq_event_path × IsOn t irq_event_path
  unfolding idlestat_init_trace
  idlestat_init_trace_lem percpu_bufsize s e =
      let w = write_int fs buffer_size_path (to_int percpu_bufsize) s in
      ground (arith, init_traces_lem w.0)
