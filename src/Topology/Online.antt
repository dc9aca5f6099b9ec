-- ===== src/Topology/Online.antt =====
-- The array `online_cpus` as `add_topo_info` (topology.c) grows and sets it.
use idlestat.Base.{
  ℕ, zero, suc, ◌+◌, ◌-◌, ◌≡◌, refl, Bool, true, false, List, [], ◌∷◌, ◌++◌, set, length,
  length-append, length-replicate, ◌==◌, ◌||◌, replicate, arith, ◌<◌, ap, ◌∙◌,
}
use idlestat.Topology.{}
use idlestat.Topology.Ids.{}
use idlestat.Topology.Build.{grow_online, set_online, online_at}

online_at-set :
    (l : List Bool) (u v : ℕ)
    → u < length l
    → online_at (set l u true) v ≡ (v == u || online_at l v)
unfolding online_at
online_at-set [] u v l = elim l [ ]
online_at-set (x ∷ xs) zero zero l = refl
online_at-set (x ∷ xs) zero (suc v) l = ground arith
online_at-set (x ∷ xs) (suc u) zero l = ground arith
online_at-set (x ∷ xs) (suc u) (suc v) l = ground (arith, online_at-set xs u v (omega arith))

online_at-replicate : (n v : ℕ) → online_at (replicate n false) v ≡ false
unfolding online_at
online_at-replicate zero v = refl
online_at-replicate (suc n) zero = refl
online_at-replicate (suc n) (suc v) = online_at-replicate n v

online_at-append : (l : List Bool) (n v : ℕ) → online_at (l ++ replicate n false) v ≡ online_at l v
unfolding online_at
online_at-append [] n v = online_at-replicate n v
online_at-append (x ∷ xs) n zero = refl
online_at-append (x ∷ xs) n (suc v) = online_at-append xs n v

-- After the growth the CPU has an entry, and nothing else is different.
grow_online_lem :
    (l : List Bool) (u v : ℕ)
    → (u < length (grow_online l u)) × (online_at (grow_online l u) v ≡ online_at l v)
unfolding grow_online
grow_online_lem l u v = ground (
  arith,
  length-append l (replicate (u + 1 - length l) false),
  length-replicate (u + 1 - length l) false,
  online_at-append l (u + 1 - length l) v,
)

pub online_at-set_online :
    (l : List Bool) (u v : ℕ) → online_at (set_online l u) v ≡ (v == u || online_at l v)
unfolding set_online
online_at-set_online l u v =
    let (room, same) = grow_online_lem l u v in
    online_at-set (grow_online l u) u v room ∙ ap (λ b. v == u || b) same
