-- ===== src/Options.antt =====
-- The command line (idlestat.c): `bad_filename`, and `getoptions` on what `getopt_long` returns one
-- after the other. `exit` is an outcome; the index of the first operand is not kept.
use idlestat.Base.{
  ℕ, suc, ◌+◌, ◌-◌, ◌%◌, ◌^◌, Bool, true, false, Option, none, some, List, [], ◌∷◌, if◌then◌else◌,
  ltb, leb, ◌==◌, ◌||◌, ◌&&◌, not, bytes,
}
use idlestat.Base.Int.{ℤ, pos, negsuc, leb_ℤ}
pub mod Accepted

-- `char` is signed or not as the platform has it; a signed byte above 127 is below 32.
unfoldable pub is_bad_char : Bool → ℕ → Bool
is_bad_char signed c = ltb c 32 || (signed && ltb 127 c) || c == 60 || c == 62 || c == 124

unfoldable pub has_bad_char : Bool → List ℕ → Bool
unfolding is_bad_char
has_bad_char signed [] = false
has_bad_char signed (c ∷ cs) = is_bad_char signed c || has_bad_char signed cs

-- `bad_filename`, where `EINVAL` is true. 45 is the dash.
unfoldable pub bad_filename : Bool → List ℕ → Bool
unfolding has_bad_char
bad_filename signed [] = false
bad_filename signed (c ∷ cs) = c == 45 || has_bad_char signed (c ∷ cs)

pub data Mode : Type 0 where
  trace_mode import_mode : Mode

-- The bits of `display`, one by one.
pub record Display : Type 0 where
  pub idle : Bool
  pub frequency : Bool
  pub wakeup : Bool

-- A mode that is not chosen yet is -1 in the source.
pub record ProgramOptions : Type 0 where
  pub mode : Option Mode
  pub display : Display
  pub duration : ℤ
  pub percpu_buffer_size : ℕ
  pub poll_interval : ℕ
  pub filename : Option (List ℕ)
  pub baseline_filename : Option (List ℕ)
  pub outfilename : Option (List ℕ)
  pub verbose : ℕ
  pub energy_model_filename : Option (List ℕ)
  pub report_type_name : Option (List ℕ)

-- What `getopt_long` returns, with the argument; a number is what `atoi` gives.
pub data Parsed : Type 0 where
  opt_mode : Mode → Parsed
  opt_f opt_b opt_o opt_e opt_r : List ℕ → Parsed
  opt_t opt_I opt_S : ℤ → Parsed
  opt_h opt_V opt_c opt_p opt_w opt_v opt_C opt_B missing_argument unknown_option : Parsed

pub data Outcome : Type 0 where
  accepted : ProgramOptions → Outcome
  refused : Outcome
  exited : Outcome

-- The conversion of an `int` to `unsigned int`.
unfoldable pub to_uint : ℤ → ℕ
to_uint (pos n) = n % 2 ^ 32
to_uint (negsuc n) = 2 ^ 32 - 1 - n % 2 ^ 32

unfoldable pub initial_options : ProgramOptions
initial_options = record {
  mode = none;
  display = record { idle = false; frequency = false; wakeup = false };
  duration = pos 0;
  percpu_buffer_size = 0;
  poll_interval = 0;
  filename = none;
  baseline_filename = none;
  outfilename = none;
  verbose = 0;
  energy_model_filename = none;
  report_type_name = none;
}

abbrev show_idle : Display → Display
show_idle x = record x { idle = true }

abbrev show_frequency : Display → Display
show_frequency x = record x { frequency = true }

abbrev show_wakeup : Display → Display
show_wakeup x = record x { wakeup = true }

-- The options `-r`, `-C` and `-B` set the report type once.
unfoldable pub set_report : ProgramOptions → List ℕ → Outcome
set_report o name = elim (o.report_type_name) [
  | none ↦ accepted (record o { report_type_name = some name })
  | some _ ↦ refused
]

-- The `switch`; `accepted` goes on to the next option.
unfoldable pub set_option : ProgramOptions → Parsed → Outcome
unfolding set_report to_uint
set_option o (opt_mode m) = accepted (record o { mode = some m })
set_option o (opt_f s) = accepted (record o { filename = some s })
set_option o (opt_b s) = accepted (record o { baseline_filename = some s })
set_option o (opt_o s) = accepted (record o { outfilename = some s })
set_option o (opt_e s) = accepted (record o { energy_model_filename = some s })
set_option o (opt_r s) = set_report o s
set_option o (opt_t n) = accepted (record o { duration = n })
set_option o (opt_I n) = accepted (record o { poll_interval = to_uint n })
set_option o (opt_S n) = accepted (record o { percpu_buffer_size = to_uint n })
set_option o opt_h = exited
set_option o opt_V = exited
set_option o opt_c = accepted (record o { display = show_idle o.display })
set_option o opt_p = accepted (record o { display = show_frequency o.display })
set_option o opt_w = accepted (record o { display = show_wakeup o.display })
set_option o opt_v = accepted (record o { verbose = o.verbose + 1 })
set_option o opt_C = set_report o (bytes "csv")
set_option o opt_B = set_report o (bytes "boxless")
set_option o missing_argument = refused
set_option o unknown_option = refused

abbrev pub then_accepted : Outcome → (ProgramOptions → Outcome) → Outcome
then_accepted (accepted o) f = f o
then_accepted refused f = refused
then_accepted exited f = exited

unfoldable pub set_options : ProgramOptions → List Parsed → Outcome
set_options o [] = accepted o
set_options o (p ∷ ps) = then_accepted (set_option o p) (λ q. set_options q ps)

abbrev pub bad_optional : Bool → Option (List ℕ) → Bool
bad_optional signed none = false
bad_optional signed (some s) = bad_filename signed s

abbrev pub is_trace : Mode → Bool
is_trace trace_mode = true
is_trace import_mode = false

abbrev pub shows_nothing : Display → Bool
shows_nothing x = not (x.idle || x.frequency || x.wakeup)

abbrev pub or_default : Option (List ℕ) → List ℕ
or_default none = bytes "default"
or_default (some s) = s

-- What follows the loop, once there is a mode and a file name.
unfoldable pub check_with : Bool → ProgramOptions → Mode → List ℕ → Outcome
unfolding bad_filename
check_with signed o mode filename =
    if bad_filename signed filename
    then refused
    else if bad_optional signed o.baseline_filename
    then refused
    else if bad_optional signed o.outfilename
    then refused
    else if is_trace mode && leb_ℤ o.duration (pos 0)
    then refused
    else accepted (record o {
      report_type_name = some (or_default o.report_type_name);
      display = if shows_nothing o.display then show_idle o.display else o.display;
    })

unfoldable pub check_options : Bool → ProgramOptions → Outcome
unfolding check_with
check_options signed o = elim (o.mode) [
  | none ↦ refused
  | some mode ↦ elim (o.filename) [ none ↦ refused | some f ↦ check_with signed o mode f ]
]

unfoldable pub getoptions : Bool → List Parsed → Outcome
getoptions signed ps = then_accepted (set_options initial_options ps) (λ o. check_options signed o)
