-- ===== src/Examples.antt =====
-- The theorems of the other files at concrete inputs, with whole microseconds as the numbers: here a
-- CPU with 16 states, and P-state tables with one or two frequencies.
pub mod Whole
pub mod Files
pub mod Runs
pub mod Reports
pub mod Traces
pub mod Events
pub mod Walks
pub mod Commands
pub mod Energies
use idlestat.Base.{
  ℕ, zero, suc, ◌+◌, ◌≡◌, refl, Bool, true, false, Option, none, some, List, [], ◌∷◌, ◌++◌,
  if◌then◌else◌, arith, ap, ◌∙◌, sym, ◌≤◌, ◌<◌, ◌≢◌, All, ◌&&◌, ◌||◌, ◌==◌, ltb, get_elem?, bytes,
  length, map?,
}
use idlestat.Base.Int.{ℤ, pos, negsuc, minus_one, eq_ℤ}
use idlestat.Base.Double.{Double, whole_double}
use idlestat.Pstates.{
  CpufreqPstate, CpufreqPstates, fresh_pstate, alloc_pstate, empty_pstates, record_group_freq,
  merge_pstates, build_pstate_info,
}
use idlestat.Pstates.Table.{IsTable, freq_at, current_entry, freqs, insert_freq}
use idlestat.Pstates.Alloc.{alloc_pstate_lem, empty-IsTable}
use idlestat.Pstates.Total.{with_freq, record_group_freq_total}
use idlestat.Pstates.Merge.{IsMerged, merge_pstates_lem, merge_pstates_fault}
use idlestat.Pstates.Group.{current_freq, record_group_freq_lost}
use idlestat.Pstates.Stats.{Group, Tracks, change_freq}
use idlestat.Pstates.Stats.Step.{record_group_freq-Tracks, empty-Tracks}
use idlestat.Cstates.{
  CpuidleCstate, CpuidleCstates, WakeupIrq, maxcstate, fresh_states, idle_cstates,
  record_cstate_event, build_from, build_cstate_info,
}
use idlestat.Cstates.Valid.{IsValid, IsStateNumber}
use idlestat.Cstates.Safety.{record_cstate_event-IsValid, record_cstate_event_fault}
use idlestat.Cstates.Stays.{IsAccount}
use idlestat.Cstates.Account.{record_cstate_event-IsAccount, build_cstate_info-IsValid}
use idlestat.Wakeup
use idlestat.Wakeup.Entries.{IsDistinct}
use idlestat.Wakeup.Counts.{IsCounted, store_irqs, store_irq_lem, store_irqs_first}

-- The CPU: two named states, the deeper one with a residency of 100 microseconds.
abbrev names : ℕ → Option (List ℕ)
names zero = some (bytes "WFI")
names (suc zero) = some (bytes "C1")
names (suc (suc i)) = none

abbrev residencies : ℕ → ℤ
residencies zero = pos 1
residencies (suc zero) = pos 100
residencies (suc (suc i)) = minus_one

abbrev idle_cpu : CpuidleCstates ℤ
idle_cpu = idle_cstates (fresh_states names residencies 0 maxcstate)

idle_cpu-IsValid : IsValid idle_cpu × All IsAccount idle_cpu.cstate
unfolding build_cstate_info build_from
idle_cpu-IsValid = (build_cstate_info-IsValid ℤ (λ cpu. names) (λ cpu. residencies) 1).0.0

record_cstate_event-IsValid_example :
    (t : CpuidleCstates ℤ) × (record_cstate_event idle_cpu (pos 5) (pos 1) ≡ some t)
    × IsValid t
    × (t.current_cstate ≡ pos 1)
record_cstate_event-IsValid_example =
    record_cstate_event-IsValid idle_cpu (pos 5) (pos 1) idle_cpu-IsValid.0 (omega arith)

record_cstate_event-IsAccount_example :
    (t : CpuidleCstates ℤ) × (record_cstate_event idle_cpu (pos 5) (pos 1) ≡ some t)
    × All IsAccount t.cstate
record_cstate_event-IsAccount_example =
    record_cstate_event-IsAccount idle_cpu (pos 5) (pos 1) idle_cpu-IsValid.0 idle_cpu-IsValid.1
      (omega arith)

record_cstate_event_fault_example : record_cstate_event idle_cpu (pos 5) (pos 16) ≡ none
record_cstate_event_fault_example =
    record_cstate_event_fault idle_cpu (pos 5) 16 idle_cpu-IsValid.0 (omega arith)

build_cstate_info-IsValid_example :
    All
      (λ s. IsValid s × All IsAccount s.cstate)
      (build_cstate_info {D = ℤ} (λ cpu. names) (λ cpu. residencies) 4)
    × (length (build_cstate_info {D = ℤ} (λ cpu. names) (λ cpu. residencies) 4) ≡ 4)
build_cstate_info-IsValid_example =
    build_cstate_info-IsValid ℤ (λ cpu. names) (λ cpu. residencies) 4

-- A table of 1 GHz and 2 GHz, the latter current.
abbrev two_freqs : CpufreqPstates ℤ
two_freqs = record {
  pstate = fresh_pstate 0 1_000_000 ∷ fresh_pstate 1 2_000_000 ∷ [];
  current = pos 1;
  idle = pos 0;
  time_enter = pos 0;
  time_exit = pos 0;
}

two_freqs-IsTable : IsTable two_freqs
unfolding fresh_pstate
two_freqs-IsTable = record {
  ascends = ground arith;
  numbered = (refl, (refl, tt));
  index = omega arith;
}

alloc_pstate_lem_example :
    let (t, i) = alloc_pstate two_freqs 1_500_000 in
    IsTable t
    × (freq_at t.pstate i ≡ some 1_500_000)
    × (current_entry t ≡ current_entry two_freqs)
    × (freqs t.pstate ≡ insert_freq 1_500_000 (freqs two_freqs.pstate))
alloc_pstate_lem_example = alloc_pstate_lem two_freqs 1_500_000 two_freqs-IsTable

record_group_freq_lost_example :
    (t : CpufreqPstates ℤ) × (record_group_freq two_freqs (pos 9) 1_500_000 ≡ some t)
    × (current_freq t ≡ some 2_000_000)
    × (◌≢◌ {A = ℕ} 2_000_000 1_500_000)
    × (t.time_enter ≡ two_freqs.time_enter)
    × (freqs t.pstate ≡ insert_freq 1_500_000 (freqs two_freqs.pstate))
unfolding fresh_pstate
record_group_freq_lost_example =
    record_group_freq_lost two_freqs (pos 9) 1_500_000 2_000_000 two_freqs-IsTable refl
      (omega arith) (ground arith)

record_group_freq-Tracks_example :
    (t : CpufreqPstates ℤ) × (record_group_freq empty_pstates (pos 9) 1_500_000 ≡ some t)
    × Tracks t
        (change_freq (record { current = none; entered = pos 0; log = [] }) (pos 9) 1_500_000)
unfolding empty_pstates
record_group_freq-Tracks_example =
    record_group_freq-Tracks empty_pstates (record { current = none; entered = pos 0; log = [] })
      (pos 9) 1_500_000 empty-Tracks (λ h l e. absurd (ground arith))

merge_pstates_lem_example :
    (r : List (CpufreqPstates ℤ) × List (CpufreqPstates ℤ)) × (merge_pstates
        (two_freqs ∷ [])
        (empty_pstates ∷ [])
      ≡ some r)
    × IsMerged r.0 r.1
merge_pstates_lem_example =
    merge_pstates_lem (two_freqs ∷ []) (empty_pstates ∷ []) (two_freqs-IsTable, tt)
      (empty-IsTable, tt) (omega arith)

merge_pstates_fault_example : merge_pstates (two_freqs ∷ two_freqs ∷ []) (two_freqs ∷ []) ≡ none
merge_pstates_fault_example =
    merge_pstates_fault (two_freqs ∷ two_freqs ∷ []) (two_freqs ∷ []) (omega arith)

store_irq_lem_example :
    let t = Wakeup.store_irq idle_cpu (pos 30) (bytes "timer") in
    ((id : ℤ) (name : List ℕ) → IsCounted idle_cpu t (pos 30) (bytes "timer") id name)
    × IsDistinct t.irqinfo
    × (t.wakeirq ≢ none)
store_irq_lem_example =
    store_irq_lem idle_cpu (pos 30) (bytes "timer") (omega arith) (λ id name. omega arith) refl

store_irqs_first_example :
    store_irqs idle_cpu
      ((pos 30, bytes "timer") ∷ (minus_one, bytes "Rescheduling interrupts") ∷ [])
    ≡ Wakeup.store_irq idle_cpu (pos 30) (bytes "timer")
store_irqs_first_example =
    store_irqs_first idle_cpu (pos 30) (bytes "timer")
      ((minus_one, bytes "Rescheduling interrupts") ∷ [])

record_group_freq_total_example :
    (t : CpufreqPstates ℤ) × (record_group_freq two_freqs (pos 9) 1_500_000 ≡ some t)
    × IsTable t
    × (freqs t.pstate ≡ with_freq 1_500_000 (freqs two_freqs.pstate))
record_group_freq_total_example =
    record_group_freq_total two_freqs (pos 9) 1_500_000 two_freqs-IsTable
