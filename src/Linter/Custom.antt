-- ===== src/Linter/Custom.antt =====
-- linters/kubelinter/customchecks/: the checks that kvisor adds to those of kube-linter (automount,
-- securitycontext, networkpolicypernamespace). The kinds that a check applies to are an argument.
use kvisor.Base.{
  String, List, [], ◌∷◌, Option, none, some, Bool, true, false, ◌&&◌, ◌||◌, if◌then◌else◌, eq_str,
  any,
}
use kvisor.Kube.Object.{Object, namespace_object, get_meta}
use kvisor.Linter.Run.{Check}

-- Which fields of `corev1.PodSecurityContext` are set.
pub record SecurityContext : Type 0 where
  pub se_linux_options : Bool
  pub windows_options : Bool
  pub run_as_user : Bool
  pub run_as_group : Bool
  pub run_as_non_root : Bool
  pub supplemental_groups : Bool
  pub fs_group : Bool
  pub sysctls : Bool
  pub fs_group_change_policy : Bool
  pub seccomp_profile : Bool

-- The fields of the pod spec that the checks read.
pub record LintedSpec : Type 0 where
  pub automount_service_account_token : Option Bool
  pub security_context : Option SecurityContext

-- `isSecurityContextSet`.
unfoldable pub is_security_context_set : Option SecurityContext → Bool
is_security_context_set none = false
is_security_context_set (some ctx) =
    ctx.se_linux_options || ctx.windows_options || ctx.run_as_user || ctx.run_as_group
    || ctx.run_as_non_root || ctx.supplemental_groups || ctx.fs_group || ctx.sysctls
    || ctx.fs_group_change_policy || ctx.seccomp_profile

-- That an object of the context is a network policy of a namespace.
unfoldable pub is_policy_of : String → Object → Bool
is_policy_of ns obj =
    eq_str (get_meta obj).kind "NetworkPolicy"
    && eq_str (get_meta obj).api_version "networking.k8s.io/v1"
    && eq_str (get_meta obj).namespace ns

unfoldable pub network_policy_messages : List Object → Object → List String
unfolding is_policy_of
network_policy_messages objects (namespace_object m) =
    if any (is_policy_of m.name) objects
    then []
    else "Namespace does not have any network policy" ∷ []
network_policy_messages objects _ = []

-- `applies` are the supported kinds; `pod_spec` is `extract.PodSpec`.
module _ (applies : Object → Bool) where
  module _ (pod_spec : Object → Option LintedSpec) where
    unfoldable pub automount_messages : Object → List String
    automount_messages obj = elim (pod_spec obj) [
      | none ↦ []
      | some spec ↦ elim spec.automount_service_account_token [
        | some true ↦ []
        | _ ↦ "Resource does not have service account token automount disabled" ∷ []
      ]
    ]

    -- `automount.Check`.
    unfoldable pub automount_check : Check
    unfolding automount_messages
    automount_check = record {
      name = "sa-token-automount";
      matches = applies;
      func = λ objects obj. automount_messages obj;
    }

    unfoldable pub security_context_messages : Object → List String
    unfolding is_security_context_set
    security_context_messages obj = elim (pod_spec obj) [
      | none ↦ []
      | some spec ↦
          if is_security_context_set spec.security_context
          then []
          else "Resource does not have security context attached" ∷ []
    ]

    -- `securitycontext.Check`.
    unfoldable pub security_context_check : Check
    unfolding security_context_messages
    security_context_check = record {
      name = "has-security-context";
      matches = applies;
      func = λ objects obj. security_context_messages obj;
    }

  -- `networkpolicypernamespace.Check`.
  unfoldable pub network_policy_check : Check
  unfolding network_policy_messages
  network_policy_check = record {
    name = "network-policy-per-namespace";
    matches = applies;
    func = network_policy_messages;
  }
