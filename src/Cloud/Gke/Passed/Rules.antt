-- ===== src/Cloud/Gke/Passed/Rules.antt =====
-- The checks of `gke/checks.go` by their kinds: what it takes that one of them passes.
use text.Mathlib.Text.{◌==◌}
use kvisor.Base.{
  String, [], ◌∷◌, Option, none, some, some_inj, Bool, true, false, not, All, any, ◌≡◌, refl, ap,
  sym, ◌∙◌, arith,
}
use kvisor.Cloud.{Check, Rule, run_check, listed, manual, tested}
use kvisor.Cloud.Reports.{Judged}
use kvisor.Cloud.Gke.{Cluster, NodePool}
use kvisor.Cloud.Gke.Pools.{pool_rule}
use kvisor.Cloud.Gke.Settings.{validate_channel}
use kvisor.Cloud.Gke.Access.{BinaryPolicy, validate_binary_authorization}
use kvisor.Cloud.Gke.Failing.{pool_rule-verdict, pool_rule-Keeps}
use kvisor.Cloud.Gke.Hardened.Tests.{channel_ok, binary_ok}
use kvisor.Cloud.Gke.Crash.{channel-Runs, binary-Runs}

-- The checks that are left to a person.
abbrev pub by_hand : String → Bool
by_hand id =
    any (λ other. other == id)
      ("5.1.2" ∷ "5.1.3" ∷ "5.1.4" ∷ "5.6.6" ∷ "5.6.8" ∷ "5.7.2" ∷ "5.9.1" ∷ "5.10.3" ∷ "5.10.6"
        ∷ [])

-- A check that is not left to a person passes.
abbrev pub PassesFor : String → Bool → Type 0
PassesFor id passed = by_hand id ≡ false → passed ≡ true

abbrev pub RulePasses : Rule → Type 0
RulePasses r = Judged (λ c. PassesFor c.id c.passed) r

pub manual-judged :
    (id description : String) (automated : Bool)
    → by_hand id ≡ true
    → RulePasses (manual id description automated)
unfolding run_check
manual-judged id description automated m c e p =
    let clash : true ≡ false = sym m ∙ ap (λ (x : Check). by_hand x.id) (some_inj e) ∙ p in cc

pub tested-passes :
    (id description : String) (automated ok : Bool)
    → by_hand id ≡ false
    → RulePasses (tested id description automated ok)
    → ok ≡ true
unfolding run_check
tested-passes id description automated ok p h = h _ refl p

pub tested-judged :
    (id description : String) (automated ok : Bool)
    → ok ≡ true
    → RulePasses (tested id description automated ok)
unfolding run_check
tested-judged id description automated ok o c e p =
    ap (λ (x : Check). x.passed) (sym (some_inj e)) ∙ o

pub pool-passes :
    (id description : String) (automated : Bool) (fails : NodePool → Option Bool)
    (f : NodePool → Bool) (cl : Cluster)
    → All (λ p. fails p ≡ some (f p)) cl.node_pools
    → by_hand id ≡ false
    → RulePasses (pool_rule id description automated fails cl)
    → not (any f cl.node_pools) ≡ true
pool-passes id description automated fails f cl given p h =
    let (c, e, passed, context) = pool_rule-verdict id description automated fails cl f given in
    let same = (pool_rule-Keeps id description automated fails cl c e).0 in
    sym passed ∙ h c e (ap by_hand same ∙ p)

pub pool-judged :
    (id description : String) (automated : Bool) (fails : NodePool → Option Bool)
    (f : NodePool → Bool) (cl : Cluster)
    → All (λ p. fails p ≡ some (f p)) cl.node_pools
    → not (any f cl.node_pools) ≡ true
    → RulePasses (pool_rule id description automated fails cl)
pool-judged id description automated fails f cl given o c e p =
    let (d, e', passed, context) = pool_rule-verdict id description automated fails cl f given in
    ap (λ (x : Check). x.passed) (some_inj (sym e ∙ e')) ∙ passed ∙ o

channel-verdict :
    (id description : String) (automated : Bool) (channel : String) (c : Check)
    → run_check (record {
      check = listed id description automated;
      validate = some (validate_channel (some channel));
    })
      ≡ some c
    → (c.id ≡ id) × (c.passed ≡ channel_ok (some channel))
unfolding run_check validate_channel
channel-verdict id description automated channel c e = ground (arith, e)

binary-verdict :
    (id description : String) (automated : Bool) (state : String) (mode : Option String)
    (policy : Option BinaryPolicy) (c : Check)
    → run_check (record {
      check = listed id description automated;
      validate = some (validate_binary_authorization state mode policy);
    })
      ≡ some c
    → (c.id ≡ id) × (c.passed ≡ binary_ok state mode policy)
unfolding run_check validate_binary_authorization
binary-verdict id description automated state mode policy c e = ground (arith, e)

pub channel-passes :
    (id description : String) (automated : Bool) (channel : Option String)
    → by_hand id ≡ false
    → RulePasses (record {
      check = listed id description automated;
      validate = some (validate_channel channel);
    })
    → channel_ok channel ≡ true
unfolding run_check validate_channel
channel-passes id description automated none p h = refl
channel-passes id description automated (some channel) p h =
    let (c, e) = channel-Runs (some channel) id description automated in
    let verdict = channel-verdict id description automated channel c e in
    sym verdict.1 ∙ h c e (ap by_hand verdict.0 ∙ p)

pub channel-judged :
    (id description : String) (automated : Bool) (channel : Option String)
    → channel_ok channel ≡ true
    → RulePasses (record {
      check = listed id description automated;
      validate = some (validate_channel channel);
    })
unfolding run_check validate_channel
channel-judged id description automated none o c e p = ground (arith, e)
channel-judged id description automated (some channel) o c e p = ground (arith, o, e)

pub binary-passes :
    (id description : String) (automated : Bool) (state : String) (mode : Option String)
    (policy : Option BinaryPolicy)
    → by_hand id ≡ false
    → RulePasses (record {
      check = listed id description automated;
      validate = some (validate_binary_authorization state mode policy);
    })
    → binary_ok state mode policy ≡ true
unfolding run_check validate_binary_authorization
binary-passes id description automated state mode policy p h =
    let (c, e) = binary-Runs state mode policy id description automated in
    let verdict = binary-verdict id description automated state mode policy c e in
    sym verdict.1 ∙ h c e (ap by_hand verdict.0 ∙ p)

pub binary-judged :
    (id description : String) (automated : Bool) (state : String) (mode : Option String)
    (policy : Option BinaryPolicy)
    → binary_ok state mode policy ≡ true
    → RulePasses (record {
      check = listed id description automated;
      validate = some (validate_binary_authorization state mode policy);
    })
unfolding run_check validate_binary_authorization
binary-judged id description automated state mode policy o c e p = ground (arith, o, e)
