-- ===== src/Energy/Parse/Current.antt =====
-- What holds of the variables of `parse_energy_model` (energy_model.c) between two lines, and the outcomes that
-- keep it.
use idlestat.Base.{
  ℕ, ◌≡◌, refl, Bool, true, false, Option, none, some, if◌then◌else◌, ◌>>=◌, length, get_elem?, set,
  length-set, get_elem?-set_self, lt-of_get_elem?, arith, ap, ◌∙◌, sym, some-injective,
}
use idlestat.Base.Int.{pos, minus_one}
use idlestat.Base.Ptr.{Ptr, err_ptr, ptr}
use idlestat.Base.Scan.{}
use idlestat.Energy.Parse.{
  ParsedCluster, EnergyParser, Parsing, refuse, accept, is_uninitialized, with_cluster,
}

-- `clustp` is null and no cluster is current, or it points to the current one, which is in the table and has
-- been started.
pub data IsCurrent (p : EnergyParser) : Type 0 where
  nowhere : p.current_cluster ≡ minus_one → p.clustp ≡ none → IsCurrent p
  somewhere :
      (k : ℕ) (c : ParsedCluster)
      → p.current_cluster ≡ pos k
      → p.clustp ≡ some k
      → get_elem? p.table k ≡ some c
      → is_uninitialized c.state ≡ false
      → IsCurrent p

pub record IsParsing (p : EnergyParser) : Type 0 where
  pub sized : length p.table ≡ p.clusters
  pub current : IsCurrent p

abbrev pub Keeps : Parsing → Type 0
Keeps r = (q : EnergyParser) → r ≡ some (ptr q) → IsParsing q

abbrev from_ptr : EnergyParser → Ptr EnergyParser → EnergyParser
from_ptr p err_ptr = p
from_ptr p (ptr q) = q

pub Keeps-accept : (p : EnergyParser) → IsParsing p → Keeps (accept p)
Keeps-accept p h q e = rw (sym (ap (from_ptr p) (some-injective (ptr p) (ptr q) e))) h

pub Keeps-refuse : Keeps refuse
Keeps-refuse q e = absurd (ground arith)

pub Keeps-none : Keeps none
Keeps-none q e = absurd (ground arith)

pub Keeps-if :
    (t : Bool) (a b : Parsing)
    → (t ≡ true → Keeps a)
    → (t ≡ false → Keeps b)
    → Keeps (if t then a else b)
Keeps-if true a b f g = f refl
Keeps-if false a b f g = g refl

pub Keeps-bind :
    {A : Type 0} (m : Option A) (f : A → Parsing)
    → ((a : A) → m ≡ some a → Keeps (f a))
    → Keeps (m >>= f)
Keeps-bind none f k q e = absurd (ground arith)
Keeps-bind (some a) f k q e = k a refl q e

-- A started cluster is put in the table as the current one.
pub put-IsParsing :
    (p q : EnergyParser) (k : ℕ) (c c' : ParsedCluster)
    → length p.table ≡ p.clusters
    → get_elem? p.table k ≡ some c
    → is_uninitialized c'.state ≡ false
    → q.table ≡ set p.table k c'
    → q.clusters ≡ p.clusters
    → q.current_cluster ≡ pos k
    → q.clustp ≡ some k
    → IsParsing q
put-IsParsing p q k c c' n e u t m i j = record {
  sized = ap length t ∙ length-set p.table k c' ∙ n ∙ sym m;
  current =
      somewhere k c' i j
        (ap (λ l. get_elem? l k) t ∙ get_elem?-set_self p.table k c' (lt-of_get_elem? p.table k e))
        u;
}

-- The current cluster, where there is one.
pub current-at :
    (p : EnergyParser) (k : ℕ)
    → IsParsing p
    → p.clustp ≡ some k
    → (c : ParsedCluster) × (p.current_cluster ≡ pos k)
      × (get_elem? p.table k ≡ some c)
      × (is_uninitialized c.state ≡ false)
current-at p k h e = elim (h.current) [
  | nowhere i j ↦ absurd (ground (arith, e, j))
  | somewhere l c i j t u ↦
      let same : l ≡ k = some-injective l k (sym j ∙ e) in
      (c, i ∙ ap pos same, ap (get_elem? p.table) (sym same) ∙ t, u)
]

pub Keeps-with_cluster :
    (p : EnergyParser) (f : ℕ → ParsedCluster → Parsing)
    → IsParsing p
    → ((k : ℕ) (c : ParsedCluster)
        → p.current_cluster ≡ pos k
        → p.clustp ≡ some k
        → get_elem? p.table k ≡ some c
        → is_uninitialized c.state ≡ false
        → Keeps (f k c))
    → Keeps (with_cluster p f)
Keeps-with_cluster p f h g =
    Keeps-bind p.clustp (λ k. get_elem? p.table k >>= λ c. f k c)
      (λ k e.
        let (c, i, t, u) = current-at p k h e in
        Keeps-bind (get_elem? p.table k) (f k) (λ c' t'. g k c' i e t' (
          ap (λ (z : ParsedCluster). is_uninitialized z.state) (some-injective c' c (sym t' ∙ t))
          ∙ u)))
