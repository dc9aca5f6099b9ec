-- ===== src/Energy/Printed.antt =====
-- What `calculate_energy_consumption` (energy_model.c) prints to stdout: the lines of each cluster and
-- the total.
use idlestat.Base.{ℕ, ◌+◌, ◌%◌, Option, none, some, List, [], ◌∷◌, ◌++◌, bytes}
use idlestat.Base.Print.{Format, pad_left}
use idlestat.Energy.{ClusterEnergy}

module _ {D : Type 0} ⦃f : Format D⦄ where
  -- `"%14.0f (%e)\n"`.
  abbrev index_text : D → List ℕ
  index_text x = pad_left 14 (f.fixed 0 x) ++ bytes " (" ++ f.scientific x ++ bytes ")\n"

  abbrev cluster_name : ClusterEnergy D → List ℕ
  cluster_name e = bytes "Cluster" ++ (e.cluster + 65) % 256 ∷ []

  abbrev cluster_text : ClusterEnergy D → List ℕ
  cluster_text e =
      (cluster_name e ++ bytes " Energy Caps  " ++ index_text e.cap)
      ++ (cluster_name e ++ bytes " Energy Idle  " ++ index_text e.idle)
      ++ cluster_name e
      ++ bytes " Energy Index "
      ++ index_text e.energy

  unfoldable clusters_text : List (ClusterEnergy D) → List ℕ
  unfolding pad_left
  clusters_text [] = []
  clusters_text (e ∷ es) = cluster_text e ++ clusters_text es

  -- Nothing without an energy model.
  unfoldable pub energy_text : Option (List (ClusterEnergy D) × D) → List ℕ
  unfolding clusters_text pad_left
  energy_text none = []
  energy_text (some (clusters, total)) =
      clusters_text clusters ++ bytes "\n   Total Energy Index " ++ index_text total ++ bytes "\n\n"
