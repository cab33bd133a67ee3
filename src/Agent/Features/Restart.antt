-- ===== src/Agent/Features/Restart.antt =====
-- When the agent restarts, and that it does so once.
use kvisor.Base.{
  String, ◌≡◌, refl, ap, ◌∙◌, inl, inr, List, [], ◌∷◌, Option, none, some, Bool, true, false, any,
  if◌then◌else◌, arith, Bool-cases, ◌&&◌, not,
}
use kvisor.Agent.Features.{
  Config, Feature, linter, kube_bench, image_scan, feature_of, is_enabled, disable, modify_config,
  features_have_changed,
}

-- The same feature.
abbrev same_feature : Feature → Option Feature → Bool
same_feature linter (some linter) = true
same_feature kube_bench (some kube_bench) = true
same_feature image_scan (some image_scan) = true
same_feature f o = false

abbrev pub is_named : Feature → List String → Bool
is_named f names = any (λ name. same_feature f (feature_of name)) names

disable-is_enabled :
    (cfg : Config) (f : Feature) (o : Option Feature)
    → is_enabled (elim o as (λ _. Config) [ none ↦ cfg | some g ↦ disable cfg g ]) f
      ≡ is_enabled cfg f && not (same_feature f o)
disable-is_enabled cfg linter (some linter) = ground arith
disable-is_enabled cfg kube_bench (some kube_bench) = ground arith
disable-is_enabled cfg image_scan (some image_scan) = ground arith
disable-is_enabled cfg linter _ = ground arith
disable-is_enabled cfg kube_bench _ = ground arith
disable-is_enabled cfg image_scan _ = ground arith

same_feature_self : (f : Feature) → same_feature f (some f) ≡ true
same_feature_self linter = refl
same_feature_self kube_bench = refl
same_feature_self image_scan = refl

eq_of_same_feature : (f g : Feature) → same_feature f (some g) ≡ true → f ≡ g
eq_of_same_feature linter linter e = refl
eq_of_same_feature kube_bench kube_bench e = refl
eq_of_same_feature image_scan image_scan e = refl
eq_of_same_feature linter _ e = cc
eq_of_same_feature kube_bench _ e = cc
eq_of_same_feature image_scan _ e = cc

-- The modified configuration has a feature enabled exactly if it was enabled and the server does
-- not name it.
pub modify_config-is_enabled :
    (cfg : Config) (names : List String) (f : Feature)
    → is_enabled (modify_config cfg names) f ≡ is_enabled cfg f && not (is_named f names)
unfolding modify_config
modify_config-is_enabled cfg [] f = ground arith
modify_config-is_enabled cfg (name ∷ names) f =
    modify_config-is_enabled
      (elim (feature_of name) [ none ↦ cfg | some feature ↦ disable cfg feature ]) names f
    ∙ ground (arith, disable-is_enabled cfg f (feature_of name))

-- A change is reported exactly if an enabled feature is named.
abbrev pub ChangedIff : Config → List String → Type 0
ChangedIff cfg names =
    (features_have_changed cfg names ≡ true
      → (f : Feature) × (is_enabled cfg f ≡ true) × (is_named f names ≡ true))
    × ((f : Feature)
        → is_enabled cfg f ≡ true
        → is_named f names ≡ true
        → features_have_changed cfg names ≡ true)

step-ChangedIff :
    (cfg : Config) (name : String) (names : List String) (o : Option Feature)
    → feature_of name ≡ o
    → ChangedIff cfg names
    → ChangedIff cfg (name ∷ names)
unfolding features_have_changed
step-ChangedIff cfg name names none e rest =
    rw (e, features_have_changed)
      (
        λ changed. let (f, on, named) = rest.0 changed in (f, on, ground (arith, named)),
        λ f on named. rest.1 f on (unnamed f named),
      )
  where
    unnamed :
        (f : Feature)
        → (if same_feature f none then true else is_named f names) ≡ true
        → is_named f names ≡ true
    unnamed linter n = n
    unnamed kube_bench n = n
    unnamed image_scan n = n
step-ChangedIff cfg name names (some g) e rest = elim (Bool-cases (is_enabled cfg g)) [
  | inl on ↦
      rw (e, features_have_changed)
        (λ changed. (g, on, ground (arith, same_feature_self g)), λ f on_f named. rw on refl)
  | inr off ↦
      rw (e, features_have_changed)
        (
          λ changed.
              let (f, on, named) = rest.0 (rw off at changed) in (f, on, ground (arith, named)),
          λ f on named. rw off (
              rest.1 f on
                (ground (arith, on, off, named, ap (is_enabled cfg), eq_of_same_feature f g))),
        )
]

-- The agent is to restart exactly if a feature that is enabled is disabled by the server.
pub features_have_changed-ChangedIff : (cfg : Config) (names : List String) → ChangedIff cfg names
unfolding features_have_changed
features_have_changed-ChangedIff cfg [] = (λ e. cc, λ f e n. cc)
features_have_changed-ChangedIff cfg (name ∷ names) =
    step-ChangedIff cfg name names (feature_of name) refl
      (features_have_changed-ChangedIff cfg names)

-- No restart loop: an agent that runs with the modified configuration does not restart at the same
-- response.
pub modify_config_settles :
    (cfg : Config) (names : List String)
    → features_have_changed (modify_config cfg names) names ≡ false
modify_config_settles cfg names =
    elim (Bool-cases (features_have_changed (modify_config cfg names) names)) [
      | inl changed ↦
          let (f, on, named) =
            (features_have_changed-ChangedIff (modify_config cfg names) names).0 changed in
          ground (arith, on, named, modify_config-is_enabled cfg names f)
      | inr settled ↦ settled
    ]
