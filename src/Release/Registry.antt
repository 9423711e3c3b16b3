-- ===== src/Release/Registry.antt =====
-- release/registry.py. The registry's directory is the list of its entries: each file holds the
-- entry of its own model and version. The order in which files are listed carries no meaning here.
pub mod Lifecycle
pub mod Deployed
use model_hub.Prelude.{
  ℕ, Bool, true, false, ◌&&◌, Option, none, some, List, [], ◌∷◌, String, Result, ok, err, str_eq,
  if◌then◌else◌,
}
use model_hub.Prelude.Counting.{filter_if}
use model_hub.Common.Errors.{Exception, value_error}
use model_hub.Gate.Types.{GateDecision, decision}
use model_hub.Gate.Checks.{Checked}
use model_hub.Release.Health.{HealthDetail}

pub data ModelStatus : Type 0 where
  candidate approved rejected deployed rolled_back : ModelStatus

pub record RegistryEntry : Type 0 where
  pub model_id : String
  pub version : String
  pub run_id : String
  pub status : ModelStatus
  pub registered_at : String
  pub gate_results : Option (List Checked)
  pub notes : Option HealthDetail

abbrev pub ModelRegistry : Type 0
ModelRegistry = List RegistryEntry

abbrev pub is_for : String → String → RegistryEntry → Bool
is_for model_id version e = str_eq e.model_id model_id && str_eq e.version version

unfoldable pub get : String → String → ModelRegistry → Option RegistryEntry
get model_id version [] = none
get model_id version (e ∷ es) =
    if is_for model_id version e then some e else get model_id version es

-- `_write`: the file of the entry's own model and version is replaced or made.
unfoldable pub write : RegistryEntry → ModelRegistry → ModelRegistry
write entry [] = entry ∷ []
write entry (e ∷ es) =
    if is_for entry.model_id entry.version e then entry ∷ es else e ∷ write entry es

-- An operation that returns the entry it has written.
abbrev pub Written : Type 0
Written = Result Exception (RegistryEntry × ModelRegistry)

abbrev written : RegistryEntry → ModelRegistry → Written
written entry registry = ok (entry, write entry registry)

unfoldable pub register_candidate : String → String → String → String → ModelRegistry → Written
register_candidate now model_id version run_id registry = elim (get model_id version registry) [
  | some existing ↦ err value_error
  | none ↦
      written
        (record {
          model_id = model_id;
          version = version;
          run_id = run_id;
          status = ModelStatus.candidate;
          registered_at = now;
          gate_results = none;
          notes = none;
        })
        registry
]

abbrev pub status_of : GateDecision → ModelStatus
status_of GateDecision.pass = ModelStatus.approved
status_of _ = ModelStatus.rejected

unfoldable pub record_gate_verdict : String → String → List Checked → ModelRegistry → Written
record_gate_verdict model_id version results registry = elim (get model_id version registry) [
  | none ↦ err value_error
  | some entry ↦
      written (record entry { status = status_of (decision results); gate_results = some results })
        registry
]

abbrev pub is_approved : ModelStatus → Bool
is_approved ModelStatus.approved = true
is_approved _ = false

abbrev pub is_deployed : ModelStatus → Bool
is_deployed ModelStatus.deployed = true
is_deployed _ = false

unfoldable pub mark_deployed : String → String → ModelRegistry → Written
mark_deployed model_id version registry = elim (get model_id version registry) [
  | none ↦ err value_error
  | some entry ↦
      if is_approved entry.status
      then written (record entry { status = ModelStatus.deployed }) registry
      else err value_error
]

unfoldable pub mark_rolled_back : String → String → Option HealthDetail → ModelRegistry → Written
mark_rolled_back model_id version notes registry = elim (get model_id version registry) [
  | none ↦ err value_error
  | some entry ↦
      if is_deployed entry.status
      then written (record entry { status = ModelStatus.rolled_back; notes = notes }) registry
      else err value_error
]

abbrev pub deployed_for : String → RegistryEntry → Bool
deployed_for model_id e = is_deployed e.status && str_eq e.model_id model_id

-- The `deployed` list of `current_deployed`.
abbrev single : List RegistryEntry → Result Exception (Option RegistryEntry)
single [] = ok none
single (e ∷ []) = ok (some e)
single (e ∷ (e' ∷ es)) = err value_error

unfoldable pub current_deployed : String → ModelRegistry → Result Exception (Option RegistryEntry)
current_deployed model_id registry = single (filter_if (deployed_for model_id) registry)
