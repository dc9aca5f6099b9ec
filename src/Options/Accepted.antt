-- ===== src/Options/Accepted.antt =====
-- What holds of the options that `getoptions` (idlestat.c) accepts.
use mathlib.Core.List.{◌++◌}
use idlestat.Base.{
  ℕ, ◌≡◌, refl, Bool, true, false, Option, none, some, List, [], ◌∷◌, if◌then◌else◌, arith, ap, ◌∙◌,
  sym, inl, inr, ◌⊎◌, Option-cases, bytes,
}
use idlestat.Base.Int.{pos, leb_ℤ}
use idlestat.Options.{
  Mode, Display, ProgramOptions, Parsed, opt_mode, opt_f, opt_b, opt_o, opt_e, opt_r, opt_t, opt_I,
  opt_S, opt_h, opt_V, opt_c, opt_p, opt_w, opt_v, opt_C, opt_B, missing_argument, unknown_option,
  Outcome, accepted, refused, exited, initial_options, set_report, set_option, then_accepted,
  set_options, bad_filename, bad_optional, is_trace, shows_nothing, or_default, check_with,
  check_options, getoptions,
}

-- The report types that a command line asks for, in order.
abbrev pub reports_of : Parsed → List (List ℕ)
reports_of (opt_r s) = s ∷ []
reports_of opt_C = bytes "csv" ∷ []
reports_of opt_B = bytes "boxless" ∷ []
reports_of _ = []

abbrev pub reports : List Parsed → List (List ℕ)
reports [] = []
reports (p ∷ ps) = reports_of p ++ reports ps

-- The last trace file that a command line names, from `f` on.
abbrev pub file_of : Option (List ℕ) → Parsed → Option (List ℕ)
file_of f (opt_f s) = some s
file_of f _ = f

abbrev pub last_file : Option (List ℕ) → List Parsed → Option (List ℕ)
last_file f [] = f
last_file f (p ∷ ps) = last_file (file_of f p) ps

abbrev as_list : {A : Type 0} → Option A → List A
as_list none = []
as_list (some a) = a ∷ []

then_accepted-eq :
    (r : Outcome) (f : ProgramOptions → Outcome) (o : ProgramOptions)
    → then_accepted r f ≡ accepted o
    → (q : ProgramOptions) × (r ≡ accepted q) × (f q ≡ accepted o)
then_accepted-eq (accepted q) f o e = (q, refl, e)
then_accepted-eq refused f o e = absurd (ground arith)
then_accepted-eq exited f o e = absurd (ground arith)

as_list_nil : {A : Type 0} (o : Option A) → as_list o ++ [] ≡ as_list o
as_list_nil none = refl
as_list_nil (some a) = refl

set_report_lem :
    (o q : ProgramOptions) (s : List ℕ)
    → set_report o s ≡ accepted q
    → (q.filename ≡ o.filename)
      × (as_list q.report_type_name ≡ as_list o.report_type_name ++ (s ∷ []))
unfolding set_report
set_report_lem o q s e = elim (Option-cases (o.report_type_name)) [
  | inl n ↦ ground arith
  | inr (x, n) ↦ ground arith
]

set_option_lem :
    (o q : ProgramOptions) (p : Parsed)
    → set_option o p ≡ accepted q
    → (q.filename ≡ file_of o.filename p)
      × (as_list q.report_type_name ≡ as_list o.report_type_name ++ reports_of p)
unfolding set_option set_report
set_option_lem o q (opt_mode m) e = ground (arith, as_list_nil o.report_type_name)
set_option_lem o q (opt_f s) e = ground (arith, as_list_nil o.report_type_name)
set_option_lem o q (opt_b s) e = ground (arith, as_list_nil o.report_type_name)
set_option_lem o q (opt_o s) e = ground (arith, as_list_nil o.report_type_name)
set_option_lem o q (opt_e s) e = ground (arith, as_list_nil o.report_type_name)
set_option_lem o q (opt_r s) e = set_report_lem o q s e
set_option_lem o q (opt_t n) e = ground (arith, as_list_nil o.report_type_name)
set_option_lem o q (opt_I n) e = ground (arith, as_list_nil o.report_type_name)
set_option_lem o q (opt_S n) e = ground (arith, as_list_nil o.report_type_name)
set_option_lem o q opt_h e = absurd (ground arith)
set_option_lem o q opt_V e = absurd (ground arith)
set_option_lem o q opt_c e = ground (arith, as_list_nil o.report_type_name)
set_option_lem o q opt_p e = ground (arith, as_list_nil o.report_type_name)
set_option_lem o q opt_w e = ground (arith, as_list_nil o.report_type_name)
set_option_lem o q opt_v e = ground (arith, as_list_nil o.report_type_name)
set_option_lem o q opt_C e = set_report_lem o q (bytes "csv") e
set_option_lem o q opt_B e = set_report_lem o q (bytes "boxless") e
set_option_lem o q missing_argument e = absurd (ground arith)
set_option_lem o q unknown_option e = absurd (ground arith)

append_assoc : {A : Type 0} (xs ys zs : List A) → (xs ++ ys) ++ zs ≡ xs ++ (ys ++ zs)
append_assoc [] ys zs = refl
append_assoc (x ∷ xs) ys zs = ap (◌∷◌ x) (append_assoc xs ys zs)

set_options_lem :
    (ps : List Parsed) (o q : ProgramOptions)
    → set_options o ps ≡ accepted q
    → (q.filename ≡ last_file o.filename ps)
      × (as_list q.report_type_name ≡ as_list o.report_type_name ++ reports ps)
unfolding set_options
set_options_lem [] o q e = ground (arith, as_list_nil o.report_type_name)
set_options_lem (p ∷ ps) o q e =
    let (r, e1, e2) = then_accepted-eq (set_option o p) (λ q. set_options q ps) q e in
    let (file, report) = set_option_lem o r p e1 in
    let (files, all) = set_options_lem ps r q e2 in
    (
      files ∙ ap (λ f. last_file f ps) file,
      all
          ∙ ap (λ l. l ++ reports ps) report
          ∙ append_assoc (as_list o.report_type_name) (reports_of p) (reports ps),
    )

-- What `getoptions` guarantees of the options that it accepts.
pub record IsAccepted (signed : Bool) (ps : List Parsed) (o : ProgramOptions) : Type 0 where
  pub mode : Mode
  pub mode_is : o.mode ≡ some mode
  pub filename : List ℕ
  pub filename_is : o.filename ≡ some filename
  pub filename_last : last_file none ps ≡ some filename
  pub filename_ok : bad_filename signed filename ≡ false
  pub baseline_ok : bad_optional signed o.baseline_filename ≡ false
  pub output_ok : bad_optional signed o.outfilename ≡ false
  pub timed : is_trace mode ≡ true → leb_ℤ o.duration (pos 0) ≡ false
  pub shows : shows_nothing o.display ≡ false
  pub one_report :
      ((reports ps ≡ []) × (o.report_type_name ≡ some (bytes "default")))
      ⊎ ((r : List ℕ) × (reports ps ≡ r ∷ []) × (o.report_type_name ≡ some r))

shows_nothing-shown :
    (x : Display) → shows_nothing (if shows_nothing x then record x { idle = true } else x) ≡ false
shows_nothing-shown x = ground arith

check_with_lem :
    (signed : Bool) (o q : ProgramOptions) (m : Mode) (f : List ℕ)
    → check_with signed o m f ≡ accepted q
    → (bad_filename signed f ≡ false)
      × (bad_optional signed q.baseline_filename ≡ false)
      × (bad_optional signed q.outfilename ≡ false)
      × (is_trace m ≡ true → leb_ℤ q.duration (pos 0) ≡ false)
      × (shows_nothing q.display ≡ false)
      × (q.mode ≡ o.mode)
      × (q.filename ≡ o.filename)
      × (q.report_type_name ≡ some (or_default o.report_type_name))
unfolding check_with
check_with_lem signed o q m f e = ground (arith, shows_nothing-shown o.display)

one_report_lem :
    (o : Option (List ℕ)) (l : List (List ℕ)) (r : Option (List ℕ))
    → as_list o ≡ l
    → r ≡ some (or_default o)
    → ((l ≡ []) × (r ≡ some (bytes "default"))) ⊎ ((x : List ℕ) × (l ≡ x ∷ []) × (r ≡ some x))
one_report_lem none l r e h = inl (sym e, h)
one_report_lem (some x) l r e h = inr (x, sym e, h)

-- Options that `getoptions` accepts have a mode; the trace file is the last one that the command line
-- names; it and the names of the baseline and of the output have no bad character; a trace has a duration above 0; something is displayed;
-- and the command line asks for at most one report type, which is the one set, or else "default".
pub getoptions_lem :
    (signed : Bool) (ps : List Parsed) (o : ProgramOptions)
    → getoptions signed ps ≡ accepted o
    → IsAccepted signed ps o
unfolding getoptions check_options initial_options
getoptions_lem signed ps o e =
    let (q, e1, e2) =
      then_accepted-eq (set_options initial_options ps) (λ o. check_options signed o) o e in
    let (file, report) = set_options_lem ps initial_options q e1 in
    checked q file report e2 (q.mode) refl (q.filename) refl
  where
    checked :
        (q : ProgramOptions)
        → q.filename ≡ last_file none ps
        → as_list q.report_type_name ≡ reports ps
        → check_options signed q ≡ accepted o
        → (m : Option Mode) → q.mode ≡ m
        → (f : Option (List ℕ)) → q.filename ≡ f
        → IsAccepted signed ps o
    checked q file report e none mode f name = absurd (ground arith)
    checked q file report e (some m) mode none name = absurd (ground arith)
    checked q file report e (some m) mode (some f) name =
        let with : check_with signed q m f ≡ accepted o = ground arith in
        let (a, b, c, t, s, same_mode, same_name, r) = check_with_lem signed q o m f with in
        record {
          mode = m;
          mode_is = same_mode ∙ mode;
          filename = f;
          filename_is = same_name ∙ name;
          filename_last = sym file ∙ name;
          filename_ok = a;
          baseline_ok = b;
          output_ok = c;
          timed = t;
          shows = s;
          one_report = one_report_lem q.report_type_name (reports ps) o.report_type_name report r;
        }
