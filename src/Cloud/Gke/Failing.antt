-- ===== src/Cloud/Gke/Failing.antt =====
-- The checks of the node pools: which pools fail, and what the check says of them.
use kvisor.Base.{
  String, List, [], ◌∷◌, map, Option, none, some, Bool, true, false, not, if◌then◌else◌, All, any,
  keep, ◌≡◌, refl, arith,
}
use kvisor.Cloud.{Check, run_check, listed}
use kvisor.Cloud.Reports.{Keeps}
use kvisor.Cloud.Gke.{NodeConfig, NodePool, Cluster}
use kvisor.Cloud.Gke.Pools.{
  on_config, on_management, failed_pools, pools_context, judge_pools, validate_pools, pool_rule,
}

abbrev pub name_of : NodePool → String
name_of pool = pool.name

-- A pool whose configuration is nil.
abbrev pub no_config : NodePool → Bool
no_config pool = elim pool.config [ none ↦ true | some _ ↦ false ]

-- The pools that fail a test that panics on none of them, in their order.
failed_pools-keep :
    (fails : NodePool → Option Bool) (f : NodePool → Bool) (pools : List NodePool)
    → All (λ p. fails p ≡ some (f p)) pools
    → failed_pools fails pools ≡ some (map name_of (keep f pools))
unfolding failed_pools
failed_pools-keep fails f [] h = refl
failed_pools-keep fails f (p ∷ ps) h = ground (arith, h.0, failed_pools-keep fails f ps h.1)

pub failed_pools-none :
    (fails : NodePool → Option Bool) (pools : List NodePool)
    → any (λ p. elim (fails p) [ none ↦ true | some _ ↦ false ]) pools ≡ true
    → failed_pools fails pools ≡ none
unfolding failed_pools
failed_pools-none fails [] e = cc
failed_pools-none fails (p ∷ ps) e = ground (arith, failed_pools-none fails ps, e)

-- A check of the node pools, on pools that make its test not panic, comes to its end. It passes
-- exactly if no pool fails the test, and otherwise its context names the pools that fail, all of
-- them and in their order.
pub pool_rule-verdict :
    (id description : String) (automated : Bool) (fails : NodePool → Option Bool) (cl : Cluster)
    (f : NodePool → Bool)
    → All (λ p. fails p ≡ some (f p)) cl.node_pools
    → (c : Check) × (run_check (pool_rule id description automated fails cl) ≡ some c)
      × (c.passed ≡ not (any f cl.node_pools))
      × (c.context ≡ (
          if any f cl.node_pools
          then some (pools_context (map name_of (keep f cl.node_pools)))
          else none))
unfolding run_check validate_pools
pool_rule-verdict id description automated fails cl f h = (
  judge_pools (listed id description automated) (map name_of (keep f cl.node_pools)),
  ground (arith, failed_pools-keep fails f cl.node_pools h),
  passed cl.node_pools,
  context cl.node_pools,
)
  where
    passed :
        (pools : List NodePool)
        → (judge_pools (listed id description automated) (map name_of (keep f pools))).passed
          ≡ not (any f pools)
    passed [] = refl
    passed (p ∷ ps) = ground (arith, passed ps)

    context :
        (pools : List NodePool)
        → (judge_pools (listed id description automated) (map name_of (keep f pools))).context
          ≡ (if any f pools then some (pools_context (map name_of (keep f pools))) else none)
    context [] = refl
    context (p ∷ ps) = ground (arith, context ps)

-- What a check of the pools says of itself, whatever the pools are.
pub pool_rule-Keeps :
    (id description : String) (automated : Bool) (fails : NodePool → Option Bool) (cl : Cluster)
    → Keeps (pool_rule id description automated fails cl)
unfolding run_check validate_pools
pool_rule-Keeps id description automated fails cl c e =
    by_names (failed_pools fails cl.node_pools) e
  where
    by_names :
        (o : Option (List String))
        → elim o as (λ _. Option Check) [
          | none ↦ none
          | some names ↦ some (judge_pools (listed id description automated) names)
        ]
          ≡ some c
        → (c.id ≡ id) × (c.passed ≡ true → c.context ≡ none)
    by_names none e = cc
    by_names (some []) e = ground (arith, e)
    by_names (some (n ∷ ns)) e = ground (arith, e)

-- A test of the configuration, of pools that all have one.
abbrev pub on_given : (NodeConfig → Bool) → NodePool → Bool
on_given test pool = elim pool.config [ none ↦ false | some config ↦ test config ]

pub on_config-given :
    (test : NodeConfig → Bool) (pools : List NodePool)
    → any no_config pools ≡ false
    → All (λ p. on_config test p ≡ some (on_given test p)) pools
on_config-given test [] e = tt
on_config-given test (p ∷ ps) e = (ground (arith, e), on_config-given test ps (ground (arith, e)))

-- A test of the management, which no pool makes panic.
abbrev pub unmanaged : (Bool × Bool → Bool) → NodePool → Bool
unmanaged test pool = elim pool.management [ none ↦ true | some m ↦ test m ]

pub on_management-given :
    (test : Bool × Bool → Bool) (pools : List NodePool)
    → All (λ p. on_management test p ≡ some (unmanaged test p)) pools
on_management-given test [] = tt
on_management-given test (p ∷ ps) = (ground arith, on_management-given test ps)
