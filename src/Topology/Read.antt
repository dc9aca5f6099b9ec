-- ===== src/Topology/Read.antt =====
-- `read_cpu_topo_info` (topology.c): the topology in a trace file, line by line, and
-- `outfile_topo_info`, which writes it. A number that was not read yet is `none`, and to use it is a
-- fault.
use idlestat.Base.{
  ℕ, zero, suc, ◌+◌, ◌-◌, ◌%◌, ◌^◌, Bool, true, false, Option, none, some, List, [], ◌∷◌, ◌++◌,
  if◌then◌else◌, map?, ◌>>=◌, ltb, ◌==◌, ◌||◌, bytes, map,
}
use idlestat.Base.Int.{ℤ, pos, negsuc, sub_ℤ}
use idlestat.Base.Double.{Double}
use idlestat.Base.Ptr.{Ptr, err_ptr, ptr}
use idlestat.Base.Scan.{
  Strtod, Directive, lit, blank, read_int, read_char, Value, int_value, char_value, Scan, scan_eof,
  scanned, sscanf,
}
use idlestat.Base.Scan.Decimal.{print_uint}
use idlestat.Topology.{CpuTopology, TopologyInfo}
use idlestat.Topology.Build.{add_topo_info, alloc_cpu_topo_info}
use idlestat.Topology.Dump.{Place, cluster_place, core_place, cpu_place, output_topo_info}
pub mod Written
pub mod Same

-- `"cluster%c"`, `"\tcore%d"`, `"\tcpu%d"` and `"\t\tcpu%d"`.
unfoldable pub cluster_format : List Directive
cluster_format = lit 99 ∷ lit 108 ∷ lit 117 ∷ lit 115 ∷ lit 116 ∷ lit 101 ∷ lit 114 ∷ read_char ∷ []

unfoldable pub core_format : List Directive
core_format = blank ∷ lit 99 ∷ lit 111 ∷ lit 114 ∷ lit 101 ∷ read_int ∷ []

unfoldable pub cpu_format : List Directive
cpu_format = blank ∷ lit 99 ∷ lit 112 ∷ lit 117 ∷ read_int ∷ []

unfoldable pub core_cpu_format : List Directive
core_cpu_format = blank ∷ blank ∷ lit 99 ∷ lit 112 ∷ lit 117 ∷ read_int ∷ []

-- `result`, `cpu_info` and `is_ht`; `inside` is whether the inner loop runs.
pub record TopoInput (D : Type 0) : Type 0 where
  pub result : CpuTopology D
  pub physical_id : ℤ
  pub core_id : Option ℤ
  pub cpu_id : Option ℤ
  pub is_ht : Bool
  pub inside : Bool

-- What a line does: the next one is read, or the topology is complete.
pub data TopoStep (D : Type 0) : Type 0 where
  next_line : TopoInput D → TopoStep D
  complete : TopoStep D

abbrev pub is_comment : List ℕ → Bool
is_comment [] = true
is_comment (c ∷ s) = c == 35

-- The `char` that is read is signed.
unfoldable pub cluster_number : ℕ → ℤ
cluster_number c = if ltb c 128 then sub_ℤ (pos c) (pos 65) else sub_ℤ (pos c) (pos 321)

module _ {D : Type 0} ⦃d : Double D⦄ where
  -- At the end of a line that is too short `pid` is not set.
  unfoldable pub cluster_line : TopoInput D → Scan D → Option (TopoStep D)
  unfolding cluster_number
  cluster_line s (scanned []) = some complete
  cluster_line s (scanned (char_value c ∷ [])) =
      some (next_line (record s { physical_id = cluster_number c; is_ht = false; inside = true }))
  cluster_line s _ = none

  unfoldable pub outer_line : ⦃t : Strtod D⦄ → TopoInput D → List ℕ → Option (TopoStep D)
  unfolding cluster_line sscanf cluster_format
  outer_line s buf =
      if is_comment buf then some (next_line s) else cluster_line s (sscanf buf cluster_format)

  unfoldable pub enter_cpu : TopoInput D → Option (TopoStep D)
  enter_cpu s = s.core_id >>= λ core. s.cpu_id >>= λ cpu.
      map? (λ topo. next_line (record s { result = topo }))
        (add_topo_info s.result
          (record { physical_id = s.physical_id; core_id = core; cpu_id = cpu }))

  -- Without a core line the core's number is the CPU's.
  abbrev pub core_of_cpu : TopoInput D → TopoInput D
  core_of_cpu s = record s { core_id = if s.is_ht then s.core_id else s.cpu_id }

  -- The `cpu` line; `otherwise` is what a line does that is none.
  unfoldable pub cpu_line :
      TopoInput D → Scan D → (TopoInput D → Option (TopoStep D)) → Option (TopoStep D)
  unfolding enter_cpu
  cpu_line s (scanned []) otherwise = otherwise (core_of_cpu s)
  cpu_line s (scanned (int_value cpu ∷ vs)) otherwise =
      enter_cpu (core_of_cpu (record s { cpu_id = some cpu }))
  cpu_line s _ otherwise = enter_cpu (core_of_cpu s)

  unfoldable pub core_line : TopoInput D → Scan D → Option (TopoStep D) → Option (TopoStep D)
  core_line s (scanned []) otherwise = otherwise
  core_line s (scanned (int_value core ∷ vs)) otherwise =
      some (next_line (record s { core_id = some core; is_ht = true }))
  core_line s _ otherwise = some (next_line (record s { is_ht = true }))

-- The topology, the line after it, and what is left of the file.
abbrev pub TopoRead : Type 0 → Type 0
TopoRead D = CpuTopology D × List ℕ × List (List ℕ)

module _ {D : Type 0} ⦃d : Double D⦄ ⦃t : Strtod D⦄ where
  unfoldable pub inner_line : TopoInput D → List ℕ → Option (TopoStep D)
  unfolding core_line cpu_line outer_line sscanf core_format cpu_format core_cpu_format
  inner_line s buf =
      if is_comment buf
      then some (next_line s)
      else core_line s (sscanf buf core_format) (
          cpu_line s (sscanf buf (if s.is_ht then core_cpu_format else cpu_format))
            (λ n. outer_line n buf))

  unfoldable pub topo_line : TopoInput D → List ℕ → Option (TopoStep D)
  unfolding inner_line outer_line
  topo_line s buf = if s.inside then inner_line s buf else outer_line s buf

  abbrev pub go_on :
      List ℕ
      → List (List ℕ)
      → (TopoInput D → Option (Ptr (TopoRead D)))
      → TopoInput D
      → TopoStep D
      → Option (Ptr (TopoRead D))
  go_on buf lines more s complete = some (ptr (s.result, buf, lines))
  go_on buf lines more s (next_line n) = more n

  unfoldable pub read_topo : TopoInput D → List (List ℕ) → Option (Ptr (TopoRead D))
  unfolding topo_line
  read_topo s [] = some err_ptr
  read_topo s (buf ∷ lines) = topo_line s buf >>= go_on buf lines (λ n. read_topo n lines) s

  abbrev pub start_input : TopoInput D
  start_input = record {
    result = alloc_cpu_topo_info;
    physical_id = pos 0;
    core_id = none;
    cpu_id = none;
    is_ht = false;
    inside = false;
  }

  unfoldable pub read_cpu_topo_info : List ℕ → List (List ℕ) → Option (Ptr (TopoRead D))
  unfolding read_topo
  read_cpu_topo_info buf lines = read_topo start_input (buf ∷ lines)

-- The lines of `outfile_topo_info`.
unfoldable pub place_line : Place → List ℕ
unfolding print_uint
place_line (cluster_place n) = bytes "cluster" ++ (n + 65) % 256 ∷ 58 ∷ 10 ∷ []
place_line (core_place n) = (9 ∷ bytes "core") ++ print_uint n ++ 10 ∷ []
place_line (cpu_place n) = (9 ∷ 9 ∷ bytes "cpu") ++ print_uint n ++ 10 ∷ []

unfoldable pub outfile_topo_info : {D : Type 0} → CpuTopology D → List (List ℕ)
unfolding place_line output_topo_info
outfile_topo_info topo = map place_line (output_topo_info topo)
