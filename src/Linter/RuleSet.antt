-- ===== src/Linter/RuleSet.antt =====
-- castai/linter_types.go: the rules of the linter, each with its bit, the sets of rules, and the
-- bundles of rules.
pub mod Sets
use Prim.Native.Nat.{bit_or, bit_and}
use kvisor.Base.{
  ℕ, shl_one, String, GoMap, lookup, List, [], ◌∷◌, Option, none, some, Bool, not, ◌==◌,
  if◌then◌else◌, keys,
}

-- The position of each rule of `LinterRuleMap` in the constants, which are `1 << iota`.
abbrev pub rule_positions : GoMap ℕ
rule_positions =
    ("dangling-service", 0)
    ∷ ("deprecated-service-account-field", 1)
    ∷ ("docker-sock", 2)
    ∷ ("drop-net-raw-capability", 3)
    ∷ ("env-var-secret", 4)
    ∷ ("exposed-services", 5)
    ∷ ("host-ipc", 6)
    ∷ ("host-network", 7)
    ∷ ("host-pid", 8)
    ∷ ("invalid-target-ports", 9)
    ∷ ("latest-tag", 10)
    ∷ ("mismatching-selector", 11)
    ∷ ("no-anti-affinity", 12)
    ∷ ("no-liveness-probe", 13)
    ∷ ("no-read-only-root-fs", 14)
    ∷ ("no-readiness-probe", 15)
    ∷ ("no-rolling-update-strategy", 16)
    ∷ ("privilege-escalation-container", 17)
    ∷ ("privileged-container", 18)
    ∷ ("privileged-ports", 19)
    ∷ ("run-as-non-root", 20)
    ∷ ("sensitive-host-mounts", 21)
    ∷ ("ssh-port", 22)
    ∷ ("unsafe-proc-mount", 23)
    ∷ ("unsafe-sysctls", 24)
    ∷ ("unset-memory-requirements", 25)
    ∷ ("use-namespace", 26)
    ∷ ("writable-host-mount", 27)
    ∷ ("cluster-admin-role-binding", 28)
    ∷ ("access-to-secrets", 29)
    ∷ ("wildcard-in-rules", 31)
    ∷ ("access-to-create-pods", 32)
    ∷ ("default-service-account", 30)
    ∷ ("sa-token-automount", 33)
    ∷ ("read-secret-from-env-var", 34)
    ∷ ("has-security-context", 35)
    ∷ ("dangling-networkpolicy", 36)
    ∷ ("dangling-horizontalpodautoscaler", 37)
    ∷ ("dangling-ingress", 38)
    ∷ ("network-policy-per-namespace", 39)
    ∷ ("containerd-sock", 40)
    ∷ ("additional-capabilities", 41)
    ∷ []

abbrev pub shift_all : GoMap ℕ → GoMap ℕ
shift_all [] = []
shift_all ((name, i) ∷ m) = (name, shl_one i) ∷ shift_all m

-- `LinterRuleMap`.
abbrev pub linter_rule_map : GoMap ℕ
linter_rule_map = shift_all rule_positions

-- `LinterRuleMap[name]`, which is 0 for a name that is not there.
unfoldable pub rule_mask : String → ℕ
rule_mask name = elim (lookup name linter_rule_map) [ none ↦ 0 | some mask ↦ mask ]

-- `LinterRuleSet` is a number; the sets that the code makes start from 0.
unfoldable pub add_rule : ℕ → ℕ → ℕ
add_rule set rule = bit_or set rule

unfoldable pub has_rule : ℕ → ℕ → Bool
has_rule set rule = not (bit_and set rule == 0)

-- The loop of `Rules` over the map.
unfoldable pub rules_of : GoMap ℕ → ℕ → List String
rules_of [] set = []
rules_of ((name, mask) ∷ m) set =
    let rest = rules_of m set in if not (bit_and set mask == 0) then name ∷ rest else rest

unfoldable pub rules : ℕ → List String
unfolding rules_of
rules set = rules_of linter_rule_map set

abbrev pub host_isolation_bundle : GoMap ℕ
host_isolation_bundle =
    ("drop-net-raw-capability", shl_one 3)
    ∷ ("host-ipc", shl_one 6)
    ∷ ("host-network", shl_one 7)
    ∷ ("host-pid", shl_one 8)
    ∷ ("privilege-escalation-container", shl_one 17)
    ∷ ("privileged-container", shl_one 18)
    ∷ ("run-as-non-root", shl_one 20)
    ∷ ("unsafe-sysctls", shl_one 24)
    ∷ ("additional-capabilities", shl_one 41)
    ∷ ("no-read-only-root-fs", shl_one 14)
    ∷ ("privileged-ports", shl_one 19)
    ∷ []

abbrev pub good_practices_bundle : GoMap ℕ
good_practices_bundle =
    ("sa-token-automount", shl_one 33)
    ∷ ("exposed-services", shl_one 5)
    ∷ ("deprecated-service-account-field", shl_one 1)
    ∷ ("latest-tag", shl_one 10)
    ∷ ("mismatching-selector", shl_one 11)
    ∷ ("no-anti-affinity", shl_one 12)
    ∷ ("no-liveness-probe", shl_one 13)
    ∷ ("no-readiness-probe", shl_one 15)
    ∷ ("no-rolling-update-strategy", shl_one 16)
    ∷ ("unset-memory-requirements", shl_one 25)
    ∷ ("use-namespace", shl_one 26)
    ∷ ("default-service-account", shl_one 30)
    ∷ ("has-security-context", shl_one 35)
    ∷ ("read-secret-from-env-var", shl_one 34)
    ∷ ("env-var-secret", shl_one 4)
    ∷ ("network-policy-per-namespace", shl_one 39)
    ∷ []

abbrev pub ports_bundle : GoMap ℕ
ports_bundle = ("invalid-target-ports", shl_one 9) ∷ ("ssh-port", shl_one 22) ∷ []

abbrev pub mount_points_bundle : GoMap ℕ
mount_points_bundle =
    ("docker-sock", shl_one 2)
    ∷ ("containerd-sock", shl_one 40)
    ∷ ("writable-host-mount", shl_one 27)
    ∷ ("unsafe-proc-mount", shl_one 23)
    ∷ ("sensitive-host-mounts", shl_one 21)
    ∷ []

abbrev pub dangling_resources_bundle : GoMap ℕ
dangling_resources_bundle =
    ("dangling-service", shl_one 0)
    ∷ ("dangling-networkpolicy", shl_one 36)
    ∷ ("dangling-horizontalpodautoscaler", shl_one 37)
    ∷ ("dangling-ingress", shl_one 38)
    ∷ []

abbrev pub rbac_bundle : GoMap ℕ
rbac_bundle =
    ("cluster-admin-role-binding", shl_one 28)
    ∷ ("access-to-secrets", shl_one 29)
    ∷ ("wildcard-in-rules", shl_one 31)
    ∷ ("access-to-create-pods", shl_one 32)
    ∷ []
