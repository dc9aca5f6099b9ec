-- ===== src/Main/Show.antt =====
-- What `main` (idlestat.c) prints of a trace: the tables of a report, by `dump_cpu_topo_info`
-- (topology.c).
use idlestat.Base.{
  ℕ, ◌+◌, ◌%◌, Bool, true, false, Option, none, some, List, [], ◌∷◌, ◌++◌, if◌then◌else◌, map?,
  ◌>>=◌, get_elem?, ◌==◌, bytes,
}
use idlestat.Base.Scan.Decimal.{print_uint}
use idlestat.Pstates.{CpufreqPstates}
use idlestat.Cstates.{CpuidleCstates}
use idlestat.Topology.Dump.{Place, cluster_place, core_place, cpu_place, Picks, dump_cpu_topo_info}
use idlestat.Datas.{CpuidleDatas}
use idlestat.Options.{Display}
use idlestat.Reports.{
  ReportOps, ReportData, Out, TableOps, and_then, display_cstates, display_pstates, display_wakeup,
}

-- The names of `dump_cpu_topo_info`; a zero ends a name.
unfoldable pub place_name : Place → List ℕ
unfolding print_uint
place_name (cluster_place n) =
    bytes "cluster" ++ (if (n + 65) % 256 == 0 then [] else (n + 65) % 256 ∷ [])
place_name (core_place n) = bytes "core" ++ print_uint n
place_name (cpu_place n) = bytes "cpu" ++ print_uint n

-- What a pointer into an array of the data points to, with the one of the baseline.
abbrev pub base_at : {A : Type 0} → List A → Option ℕ → A → Option (A × Option A)
base_at bs none s = some (s, none)
base_at bs (some k) s = map? (λ b. (s, some b)) (get_elem? bs k)

abbrev pub pointed : {A : Type 0} → List A → List A → Option ℕ → Option ℕ → Option (A × Option A)
pointed xs bs at base = at >>= λ k. get_elem? xs k >>= base_at bs base

module _ {D : Type 0} where
  unfoldable pub cstate_picks :
      List (CpuidleCstates D)
      → List (CpuidleCstates D)
      → Picks D (Option (CpuidleCstates D × Option (CpuidleCstates D)))
  cstate_picks xs bs = record {
    of_cluster = λ p. map? (λ s. (s, p.base_cstates)) p.cstates;
    of_core = λ c. map? (λ s. (s, c.base_cstates)) c.cstates;
    of_cpu = λ c. pointed xs bs c.cstates c.base_cstates;
  }

  unfoldable pub pstate_picks :
      List (CpufreqPstates D)
      → List (CpufreqPstates D)
      → Picks D (Option (CpufreqPstates D × Option (CpufreqPstates D)))
  pstate_picks xs bs = record {
    of_cluster = λ p. some (p.pstates, p.base_pstates);
    of_core = λ c. some (c.pstates, c.base_pstates);
    of_cpu = λ c. pointed xs bs c.pstates c.base_pstates;
  }

  abbrev cpus_of : {A : Type 0} → (CpuidleDatas D → List A) → Option (CpuidleDatas D) → List A
  cpus_of f none = []
  cpus_of f (some b) = f b

  -- The calls of `dump`, one after the other.
  unfoldable pub dump_places :
      {A : Type 0}
      → (List ℕ → A → ReportData D → Out D)
      → List (Place × Option A)
      → ReportData D
      → Out D
  unfolding and_then place_name
  dump_places dump [] r = some ([], r)
  dump_places dump ((place, none) ∷ rest) r = none
  dump_places dump ((place, some a) ∷ rest) r =
      and_then (dump (place_name place) a r) (dump_places dump rest)

  -- A table, where it is asked for.
  unfoldable pub show_table :
      {A : Type 0} → Bool → TableOps D A → (ReportData D → Out D) → ReportData D → Out D
  unfolding and_then
  show_table false ops rows r = some ([], r)
  show_table true ops rows r = ops.table_header >>= λ header. ops.table_footer >>= λ footer.
      and_then (and_then (some (header, r)) rows) (λ q. some (footer, q))

  unfoldable pub show_report :
      ReportOps D → Display → CpuidleDatas D → Option (CpuidleDatas D) → ReportData D → Out D
  unfolding and_then show_table dump_places cstate_picks pstate_picks dump_cpu_topo_info
      display_cstates display_pstates display_wakeup
  show_report ops display datas baseline r =
      let cs =
        dump_cpu_topo_info (cstate_picks datas.cstates (cpus_of (λ b. b.cstates) baseline))
          datas.topo in
      let ps =
        dump_cpu_topo_info (pstate_picks datas.pstates (cpus_of (λ b. b.pstates) baseline))
          datas.topo in
      and_then
        (and_then
          (show_table display.idle ops.cstate
            (dump_places (λ cpu x. display_cstates ops cpu x.0 x.1) cs) r)
          (show_table display.frequency ops.pstate
            (dump_places (λ cpu x. display_pstates ops cpu x.0 x.1) ps)))
        (show_table display.wakeup ops.wakeup
          (dump_places (λ cpu x. display_wakeup ops cpu x.0) cs))
