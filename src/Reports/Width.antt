-- ===== src/Reports/Width.antt =====
-- The box of a name in the default report (default_report.c: default_cpu_header).
use idlestat.Base.{
  ℕ, ◌+◌, ◌-◌, ◌≤◌, ◌≡◌, refl, List, [], ◌∷◌, ◌++◌, length, length-append, length-replicate, bytes,
  arith, replicate,
}
use idlestat.Base.Print.{pad_right, length-pad_right}
use idlestat.Reports.Default.{charrep, name_line, default_cpu_header}

length-name_line :
    (cpu : List ℕ) (len : ℕ) → length cpu + 16 ≤ len → length (name_line cpu len) ≡ len
unfolding name_line
length-name_line cpu len h = ground (
  arith,
  length-pad_right (len - 4) cpu (omega arith),
  length-pad_right (len - 9) cpu (omega arith),
  length-pad_right (len - 16) cpu (omega arith),
  length-append (bytes "| ") (pad_right (len - 4) cpu),
  length-append (bytes "| " ++ pad_right (len - 4) cpu) (bytes " |"),
  length-append (bytes "|      ") (pad_right (len - 9) cpu),
  length-append (bytes "|      " ++ pad_right (len - 9) cpu) (bytes " |"),
  length-append (bytes "|             ") (pad_right (len - 16) cpu),
  length-append (bytes "|             " ++ pad_right (len - 16) cpu) (bytes " |"),
)

-- The header of a cluster, a core or a CPU is three lines, and each of them is as wide as the table.
-- This holds where the name is at least 16 columns shorter than the table.
pub default_cpu_header_lem :
    (len : ℕ) (cpu : List ℕ)
    → length cpu + 16 ≤ len
    → (top middle bottom : List ℕ) × (default_cpu_header len cpu
        ≡ top ++ 10 ∷ (middle ++ 10 ∷ (bottom ++ 10 ∷ [])))
      × (length top ≡ len)
      × (length middle ≡ len)
      × (length bottom ≡ len)
unfolding default_cpu_header charrep
default_cpu_header_lem len cpu h = (
  replicate len 45,
  name_line cpu len,
  replicate len 45,
  refl,
  length-replicate {A = ℕ} len 45,
  length-name_line cpu len h,
  length-replicate {A = ℕ} len 45,
)
