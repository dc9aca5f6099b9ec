-- ===== src/TraceFile/Choice.antt =====
-- `idlestat_load` (idlestat.c) on the three formats, whatever the order of the linker's table, and the
-- number of CPUs that `ftrace_load` (tracefile_ftrace.c) takes from the comments of a file.
use idlestat.Base.{
  ℕ, ◌≡◌, refl, Bool, true, false, not, some, List, [], ◌∷◌, ◌++◌, ◌==◌, ◌⊎◌, inl, inr, bytes,
  starts_with, arith, All, ap, ◌∙◌, ◌||◌,
}
use idlestat.Base.Double.{Double}
use idlestat.Base.Ptr.{err_ptr}
use idlestat.Base.Scan.{Strtod}
use idlestat.TraceFile.{trace_format}
use idlestat.TraceFile.Load.{
  TraceOps, check_magic, idlestat_load, is_hash, comment_cpus, ftrace_head, ftrace_load, from_head,
  load_from_sysfs, Sysfs, cpus_in, ftrace_cpus_format,
}

-- Two magics where no file has both: they differ in a byte that both have.
unfoldable pub differ : List ℕ → List ℕ → Bool
differ [] m = false
differ (x ∷ xs) [] = false
differ (x ∷ xs) (y ∷ ys) = not (x == y) || differ xs ys

starts_with-differ :
    (s m k : List ℕ) → differ m k ≡ true → starts_with s m ≡ true → starts_with s k ≡ false
unfolding differ starts_with
starts_with-differ s [] k h e = absurd (ground arith)
starts_with-differ s (x ∷ m) [] h e = absurd (ground arith)
starts_with-differ [] (x ∷ m) (y ∷ k) h e = refl
starts_with-differ (c ∷ s) (x ∷ m) (y ∷ k) h e = ground (arith, starts_with-differ s m k)

-- Every format of the table is the one, or its magic differs.
abbrev pub IsApart : {D : Type 0} → TraceOps D → TraceOps D → Type 0
IsApart ops other = (other ≡ ops) ⊎ (differ ops.magic other.magic ≡ true)

module _ {D : Type 0} where
  load_other :
      (ops : TraceOps D) (rest : List (TraceOps D)) (line : List ℕ) (lines : List (List ℕ))
      → starts_with line ops.magic ≡ false
      → idlestat_load (ops ∷ rest) (some (line ∷ lines)) ≡ idlestat_load rest (some (line ∷ lines))
  unfolding idlestat_load check_magic
  load_other ops rest line lines e = rw e refl

  load_this :
      (ops : TraceOps D) (rest : List (TraceOps D)) (line : List ℕ) (lines : List (List ℕ))
      → starts_with line ops.magic ≡ true
      → idlestat_load (ops ∷ rest) (some (line ∷ lines)) ≡ ops.load (some (line ∷ lines))
  unfolding idlestat_load check_magic
  load_this ops rest line lines e = rw e refl

  -- Whether a format is in the table, by its place.
  pub data IsIn (ops : TraceOps D) : List (TraceOps D) → Type 0 where
    here : {rest : List (TraceOps D)} → IsIn ops (ops ∷ rest)
    later :
        {other : TraceOps D} {rest : List (TraceOps D)} → IsIn ops rest → IsIn ops (other ∷ rest)

  -- A file whose first line has the magic of one of the formats is loaded as that format, wherever it
  -- stands in the table, if the magics of the others differ from it.
  pub idlestat_load_magic :
      (ops : TraceOps D) (table : List (TraceOps D)) (line : List ℕ) (lines : List (List ℕ))
      → IsIn ops table
      → All (IsApart ops) table
      → starts_with line ops.magic ≡ true
      → idlestat_load table (some (line ∷ lines)) ≡ ops.load (some (line ∷ lines))
  idlestat_load_magic ops [] line lines k h m = elim k [ ]
  idlestat_load_magic ops (x ∷ table) line lines here h m = load_this ops table line lines m
  idlestat_load_magic ops (x ∷ table) line lines (later k) h m = elim h.0 [
    | inl e ↦ rw e (load_this ops table line lines m)
    | inr e ↦
        load_other x table line lines (starts_with-differ line ops.magic x.magic e m)
        ∙ idlestat_load_magic ops table line lines k h.1 m
  ]

  -- No other file is loaded: it is an error when no magic fits.
  pub idlestat_load_unknown :
      (table : List (TraceOps D)) (line : List ℕ) (lines : List (List ℕ))
      → All (λ (ops : TraceOps D). starts_with line ops.magic ≡ false) table
      → idlestat_load table (some (line ∷ lines)) ≡ some err_ptr
  unfolding idlestat_load
  idlestat_load_unknown [] line lines h = refl
  idlestat_load_unknown (ops ∷ table) line lines h =
      load_other ops table line lines h.0 ∙ idlestat_load_unknown table line lines h.1

-- The comments at the head of an ftrace file, one after the other.
abbrev AllHash : List (List ℕ) → Type 0
AllHash = All (λ line. is_hash line ≡ true)

module _ (D : Type 0) ⦃t : Strtod D⦄ where
  ftrace_head-hash :
      (nrcpus : ℕ) (buffer line : List ℕ) (lines : List (List ℕ))
      → is_hash buffer ≡ true
      → ftrace_head D nrcpus buffer (line ∷ lines)
        ≡ ftrace_head D (comment_cpus D nrcpus buffer) line lines
  unfolding ftrace_head
  ftrace_head-hash nrcpus buffer line lines h = rw h refl

  ftrace_head-stop :
      (nrcpus : ℕ) (buffer : List ℕ) (lines : List (List ℕ))
      → is_hash buffer ≡ false
      → ftrace_head D nrcpus buffer lines ≡ some (nrcpus, buffer, lines)
  unfolding ftrace_head
  ftrace_head-stop nrcpus buffer [] h = ground arith
  ftrace_head-stop nrcpus buffer (line ∷ lines) h = rw h refl

  comment_cpus-other :
      (nrcpus : ℕ) (line : List ℕ)
      → starts_with line (bytes "#P:") ≡ false
      → comment_cpus D nrcpus line ≡ cpus_in D ftrace_cpus_format line
  unfolding comment_cpus
  comment_cpus-other nrcpus line p = rw p refl

  ftrace_head-comments :
      (nrcpus : ℕ) (first : List ℕ) (comments : List (List ℕ)) (last next : List ℕ)
      (rest : List (List ℕ))
      → is_hash first ≡ true
      → AllHash comments
      → is_hash last ≡ true
      → starts_with last (bytes "#P:") ≡ false
      → is_hash next ≡ false
      → ftrace_head D nrcpus first (comments ++ last ∷ next ∷ rest)
        ≡ some (cpus_in D ftrace_cpus_format last, next, rest)
  ftrace_head-comments nrcpus first [] last next rest f c l p n =
      ftrace_head-hash nrcpus first last (next ∷ rest) f
      ∙ ftrace_head-hash (comment_cpus D nrcpus first) last next rest l
      ∙ ap (λ k. ftrace_head D k next rest)
          (comment_cpus-other (comment_cpus D nrcpus first) last p)
      ∙ ftrace_head-stop (cpus_in D ftrace_cpus_format last) next rest n
  ftrace_head-comments nrcpus first (x ∷ comments) last next rest f c l p n =
      ftrace_head-hash nrcpus first x (comments ++ last ∷ next ∷ rest) f
      ∙ ftrace_head-comments (comment_cpus D nrcpus first) x comments last next rest c.0 c.1 l p n

module _ {D : Type 0} ⦃d : Double D⦄ ⦃t : Strtod D⦄ (sysfs : Sysfs D) where
  -- The number of CPUs of an ftrace file is that of the last comment before the first line that is
  -- none, and the comments above it do not count. A file is refused where that last comment has no
  -- number of CPUs, even if one above has. This holds where the file has two comments or more, and
  -- the last one does not begin with `#P:`.
  pub ftrace_load_last_comment :
      (first : List ℕ) (comments : List (List ℕ)) (last next : List ℕ) (rest : List (List ℕ))
      → is_hash first ≡ true
      → AllHash comments
      → is_hash last ≡ true
      → starts_with last (bytes "#P:") ≡ false
      → is_hash next ≡ false
      → (ftrace_load sysfs (some (first ∷ (comments ++ last ∷ next ∷ rest)))
          ≡ load_from_sysfs sysfs trace_format (cpus_in D ftrace_cpus_format last) next rest)
        × (cpus_in D ftrace_cpus_format last ≡ 0
            → ftrace_load sysfs (some (first ∷ (comments ++ last ∷ next ∷ rest))) ≡ some err_ptr)
  unfolding ftrace_load load_from_sysfs
  ftrace_load_last_comment first comments last next rest f c l p n =
      let e =
        ap (from_head sysfs) (ftrace_head-comments D 0 first comments last next rest f c l p n) in
      (e, λ z. e ∙ rw z refl)
