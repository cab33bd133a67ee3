-- ===== src/Agent/Manager/Last.antt =====
-- What the observers make of the server's answers.
use kvisor.Base.{String, List, [], ◌∷◌, none, some}
use kvisor.Agent.Manager.{TelemetryResponse, Wakeup, context_done, interval_over}

-- The responses of the server until the context is done.
abbrev pub responses : List Wakeup → List TelemetryResponse
responses [] = []
responses (context_done ∷ later) = []
responses (interval_over none ∷ later) = responses later
responses (interval_over (some resp) ∷ later) = resp ∷ responses later

-- The rules of the last response, or the ones from before.
abbrev last_rules : List String → List TelemetryResponse → List String
last_rules before [] = before
last_rules before (resp ∷ []) = resp.enforced_rules
last_rules before (resp ∷ next ∷ later) = last_rules before (next ∷ later)
