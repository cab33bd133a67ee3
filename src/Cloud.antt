-- ===== src/Cloud.antt =====
-- cloudscan/: the checks of a managed cluster's configuration and the report on them. What gke/ and
-- eks/ each declare in the same words, the type `check` and the loop of `scan`, stands here once.
pub mod Reports
pub mod Gke
pub mod Eks
use kvisor.Base.{String, List, [], ◌∷◌, Option, none, some, Bool, true, false, ◌⊎◌, inl, inr, ap}

-- `checkContext`.
pub record CheckContext : Type 0 where
  pub release_channel : String
  pub node_pools : List String
  pub reason : String

-- `check`, but for `validate`.
pub record Check : Type 0 where
  pub id : String
  pub description : String
  pub automated : Bool
  pub context : Option CheckContext
  pub passed : Bool

-- A check as it is listed: its fields before it runs, and `validate`, which may be nil, and may
-- dereference a nil pointer (`none`).
pub record Rule : Type 0 where
  pub check : Check
  pub validate : Option (Check → Option Check)

-- `castai.CloudScanCheck`, with the context as it was marshalled.
pub record CloudScanCheck : Type 0 where
  pub id : String
  pub automated : Bool
  pub passed : Bool
  pub context : Option String

-- What the loop over the checks comes to.
pub data Made : Type 0 where
  panicked : Made
  refused : String → Made
  made : List CloudScanCheck → Made

abbrev pub listed : String → String → Bool → Check
listed id description automated = record {
  id = id;
  description = description;
  automated = automated;
  context = none;
  passed = false;
}

-- A check with no `validate`.
abbrev pub manual : String → String → Bool → Rule
manual id description automated = record {
  check = listed id description automated;
  validate = none;
}

-- A check whose `validate` is `c.passed = ok`.
abbrev pub tested : String → String → Bool → Bool → Rule
tested id description automated ok = record {
  check = listed id description automated;
  validate = some (λ c. some (record c { passed = ok }));
}

unfoldable pub run_check : Rule → Option Check
run_check r = elim r.validate [ none ↦ some r.check | some validate ↦ validate r.check ]

abbrev pub with_entry : CloudScanCheck → Made → Made
with_entry entry panicked = panicked
with_entry entry (refused err) = refused err
with_entry entry (made entries) = made (entry ∷ entries)

abbrev pub entry_of : Check → Option String → CloudScanCheck
entry_of c bytes = record { id = c.id; automated = c.automated; passed = c.passed; context = bytes }

-- `marshal` is `json.Marshal` on a context: an error or the bytes.
module _ (marshal : CheckContext → String ⊎ String) where
  -- The context of an entry; a check without a context has none.
  unfoldable pub context_bytes : Option CheckContext → String ⊎ Option String
  context_bytes none = inr none
  context_bytes (some context) = elim (marshal context) [
    | inl err ↦ inl err
    | inr bytes ↦ inr (some bytes)
  ]

  unfoldable pub report_of : List Rule → Made
  unfolding run_check context_bytes
  report_of [] = made []
  report_of (r ∷ rs) =
      let rest = report_of rs in
      elim (run_check r) [
        | none ↦ panicked
        | some c ↦ elim (context_bytes c.context) [
          | inl err ↦ refused err
          | inr bytes ↦ with_entry (entry_of c bytes) rest
        ]
      ]
