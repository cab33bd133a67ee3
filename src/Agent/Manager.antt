-- ===== src/Agent/Manager.antt =====
-- castai/telemetry/: the manager (manager.go), which hands each response of the server to its
-- observers, with the two observers of the agent: `TelemetryObserver` of policy/enforcer.go and
-- `ObserveDisabledFeatures` of config.go.
pub mod Last
use kvisor.Base.{String, List, [], ◌∷◌, ◌++◌, Option, none, some, Bool, true, ◌||◌}
use kvisor.Policy.{Enforcer, observe}
use kvisor.Agent.Features.{Config, features_have_changed}

-- `castai.TelemetryResponse`.
pub record TelemetryResponse : Type 0 where
  pub disabled_features : List String
  pub enforced_rules : List String

-- What the observers change: the enforcer, and whether the context is cancelled that
-- `ObserveDisabledFeatures` derives from the agent's. agent.go discards the derived context, so that its
-- end is not the end of `Start`.
pub record Watched : Type 0 where
  pub enforcer : Enforcer
  pub derived_cancelled : Bool

abbrev pub Observer : Type 0
Observer = Watched → TelemetryResponse → Watched

unfoldable pub telemetry_observer : Observer
telemetry_observer w resp = record w { enforcer = observe w.enforcer resp.enforced_rules }

unfoldable pub observe_disabled_features : Config → Observer
observe_disabled_features cfg w resp = record w {
  derived_cancelled = w.derived_cancelled || features_have_changed cfg resp.disabled_features;
}

-- `AddObservers`.
abbrev pub add_observers : List Observer → List Observer → List Observer
add_observers observers more = observers ++ more

unfoldable pub call_observers : List Observer → Watched → TelemetryResponse → Watched
call_observers [] w resp = w
call_observers (observer ∷ observers) w resp = call_observers observers (observer w resp) resp

-- What the `select` of `Start` finds ready: the agent's context is done, or the interval is over, and
-- then the server's answer, where an error (`none`) is only logged.
pub data Wakeup : Type 0 where
  context_done : Wakeup
  interval_over : Option TelemetryResponse → Wakeup

-- `Start`, which returns when the context is done.
unfoldable pub start : List Observer → Watched → List Wakeup → Watched
unfolding call_observers
start observers w [] = w
start observers w (context_done ∷ later) = w
start observers w (interval_over none ∷ later) = start observers w later
start observers w (interval_over (some resp) ∷ later) =
    start observers (call_observers observers w resp) later
