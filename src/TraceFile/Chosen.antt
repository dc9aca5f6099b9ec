-- ===== src/TraceFile/Chosen.antt =====
-- `idlestat_load` on a file of `idlestat_store` (idlestat.c).
use idlestat.Base.{ℕ, ◌^◌, ◌<◌, ◌≡◌, refl, Option, some, List, ◌∷◌, starts_with, All, ◌∙◌}
use idlestat.Base.Int.{ℤ}
use idlestat.Base.Double.{Double}
use idlestat.Base.Print.{Format}
use idlestat.Base.Scan.{Strtod}
use idlestat.Topology.{CpuTopology}
use idlestat.Topology.Order.{IsTopology}
use idlestat.Topology.Read.Written.{IsIntCluster, EndsTopology}
use idlestat.Topology.Read.Same.{IsSameTopology, IsListed}
use idlestat.TraceFile.Load.{TraceOps, Sysfs, idlestat_trace_ops, idlestat_load}
use idlestat.TraceFile.Stored.{idlestat_store, event_lines}
use idlestat.TraceFile.States.Written.{IsStorable}
use idlestat.TraceFile.Loaded.{native_load-store, load_events, stored_datas}
use idlestat.TraceFile.Choice.{IsIn, IsApart, idlestat_load_magic}

module _ {D : Type 0} ⦃d : Double D⦄ ⦃t : Strtod D⦄ where
  -- With the native format in the linker's table, among formats with other magics and wherever it
  -- stands, the program finds the loader of the files that it stores, and loads from them the same
  -- topology, the C-states and the events, under the conditions on what is stored that the native loader
  -- has: a well-formed topology of the CPUs that are online, numbers in the range of the formats, names
  -- that can be stored, fewer than 2^31 CPUs, and an event whose line does not look like the topology's.
  pub idlestat_load-store :
      ⦃f : Format D⦄ (sysfs : Sysfs D) (table : List (TraceOps D)) (version : List ℕ) (pid n : ℕ)
      (start_ts end_ts : D) (initp : Option (List ℕ)) (topo : CpuTopology D)
      (name : ℕ → ℕ → Option (List ℕ)) (residency : ℕ → ℕ → ℤ) (trace : List (List ℕ))
      (next : List ℕ) (rest : List (List ℕ))
      → IsIn (idlestat_trace_ops sysfs) table
      → All (IsApart (idlestat_trace_ops sysfs)) table
      → event_lines pid start_ts end_ts initp topo trace ≡ next ∷ rest
      → EndsTopology D next
      → IsTopology topo
      → IsListed topo
      → All IsIntCluster topo.physicals
      → ((cpu : ℕ) → IsStorable (name cpu) (residency cpu))
      → 0 < n
      → n < 2 ^ 31
      → (e : CpuTopology D) × IsSameTopology topo e
        × (idlestat_load table
              (some (idlestat_store version pid n start_ts end_ts initp topo name residency trace))
            ≡ load_events next rest (stored_datas topo e name residency n))
  unfolding idlestat_store starts_with
  idlestat_load-store sysfs table version pid n start_ts end_ts initp topo name residency trace next
        rest known apart events ends formed listed printable storable lo hi =
      let (e, same, loaded) =
        native_load-store version pid n start_ts end_ts initp topo name residency trace next rest
          events ends formed listed printable storable lo hi in
      (e, same, idlestat_load_magic (idlestat_trace_ops sysfs) table _ _ known apart refl ∙ loaded)
