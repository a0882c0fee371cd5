-- ===== src/ProviderFallback/Selector.antt =====
-- src/quantpilot_core/provider_fallback_selector: contracts.py and selector.py. A dict with provider
-- names as keys is a function from the two names.
use Prim.Native.String
use quant_pilot_ai_next.Base.{
  String, Bool, true, false, Option, none, some, List, [], ◌∷◌, not, if◌then◌else◌,
}
use quant_pilot_ai_next.Text.{◌==◌}

pub data ProviderCandidateName : Type 0 where
  akshare baostock : ProviderCandidateName

pub data ProviderAvailability : Type 0 where
  available missing disabled unhealthy : ProviderAvailability

pub data ProviderFallbackPreference : Type 0 where
  akshare_first baostock_first : ProviderFallbackPreference

pub record ProviderCandidateStatus : Type 0 where
  pub name : ProviderCandidateName
  pub availability : ProviderAvailability
  pub reason : String

pub record ProviderFallbackSelectionRequest : Type 0 where
  pub candidates : List ProviderCandidateStatus
  pub preference : ProviderFallbackPreference
  pub require_available : Bool

pub record ProviderFallbackSelectionResult : Type 0 where
  pub selected_provider : Option ProviderCandidateName
  pub fallback_order : List ProviderCandidateName
  pub can_attempt_fetch : Bool
  pub reasons : List String
  pub warnings : List String
  pub suggested_next_action : String

abbrev pub same_name : ProviderCandidateName → ProviderCandidateName → Bool
same_name akshare akshare = true
same_name akshare baostock = false
same_name baostock akshare = false
same_name baostock baostock = true

abbrev pub is_available : ProviderAvailability → Bool
is_available available = true
is_available missing = false
is_available disabled = false
is_available unhealthy = false

abbrev pub is_disabled : ProviderAvailability → Bool
is_disabled available = false
is_disabled missing = false
is_disabled disabled = true
is_disabled unhealthy = false

-- `name.value` and `availability.value`
abbrev name_value : ProviderCandidateName → String
name_value akshare = "akshare"
name_value baostock = "baostock"

abbrev availability_value : ProviderAvailability → String
availability_value available = "available"
availability_value missing = "missing"
availability_value disabled = "disabled"
availability_value unhealthy = "unhealthy"

unfoldable pub build_default_fallback_order :
    ProviderFallbackPreference → List ProviderCandidateName
build_default_fallback_order baostock_first = baostock ∷ akshare ∷ []
build_default_fallback_order akshare_first = akshare ∷ baostock ∷ []

-- `_availability_from_dependency_status`, of the text of the status
unfoldable pub availability_from_dependency_status : String → ProviderAvailability
availability_from_dependency_status value =
    if value == "available" then available else if value == "missing" then missing else unhealthy

unfoldable pub build_candidate_statuses : String → String → List ProviderCandidateStatus
unfolding availability_from_dependency_status
build_candidate_statuses akshare_status baostock_status =
    record {
      name = akshare;
      availability = availability_from_dependency_status akshare_status;
      reason = "";
    }
    ∷ record {
      name = baostock;
      availability = availability_from_dependency_status baostock_status;
      reason = "";
    }
    ∷ []

abbrev pub Statuses : Type 0
Statuses = ProviderCandidateName → Option ProviderCandidateStatus

-- the loop of `_status_by_name_last_wins`, from the dict built so far
unfoldable pub status_by_name_from : Statuses → List ProviderCandidateStatus → Statuses
status_by_name_from statuses [] = statuses
status_by_name_from statuses (candidate ∷ candidates) =
    status_by_name_from
      (λ name. if same_name candidate.name name then some candidate else statuses name) candidates

unfoldable pub status_by_name_last_wins : List ProviderCandidateStatus → Statuses
unfolding status_by_name_from
status_by_name_last_wins candidates = status_by_name_from (λ name. none) candidates

-- `statuses.get(name, …)`: a provider that nobody reported is missing
unfoldable pub normalized_status : Statuses → ProviderCandidateName → ProviderCandidateStatus
normalized_status statuses name = elim (statuses name) [
  | none ↦ record { name = name; availability = missing; reason = "not reported" }
  | some status ↦ status
]

-- `_warning_for_status`
unfoldable pub warning_for_status : ProviderCandidateStatus → String
warning_for_status status =
    let suffix = if status.reason == "" then "" else String.◌++◌ ": " status.reason in
    String.◌++◌ (name_value status.name)
      (String.◌++◌ " " (String.◌++◌ (availability_value status.availability) suffix))

-- the name of the first available status of the order
unfoldable pub first_available :
    Statuses → List ProviderCandidateName → Option ProviderCandidateName
unfolding normalized_status
first_available statuses [] = none
first_available statuses (name ∷ order) =
    let status = normalized_status statuses name in
    let rest = first_available statuses order in
    if is_available status.availability then some status.name else rest

unfoldable pub warnings_of : Statuses → List ProviderCandidateName → List String
unfolding normalized_status warning_for_status
warnings_of statuses [] = []
warnings_of statuses (name ∷ order) =
    let status = normalized_status statuses name in
    let rest = warnings_of statuses order in
    if is_available status.availability then rest else warning_for_status status ∷ rest

unfoldable pub selection :
    Statuses
    → List ProviderCandidateName
    → Bool
    → Option ProviderCandidateName
    → ProviderFallbackSelectionResult
unfolding warnings_of normalized_status
selection statuses order require_available none = record {
  selected_provider = none;
  fallback_order = order;
  can_attempt_fetch = false;
  reasons = "no_available_provider" ∷ [];
  warnings = warnings_of statuses order;
  suggested_next_action =
      "Install or enable at least one optional provider, or use a fake/offline fixture.";
}
selection statuses order require_available (some selected) =
    let selected_status = normalized_status statuses selected in
    record {
      selected_provider = some selected;
      fallback_order = order;
      can_attempt_fetch =
          if require_available
          then is_available selected_status.availability
          else not (is_disabled selected_status.availability);
      reasons = [];
      warnings = warnings_of statuses order;
      suggested_next_action =
          "Attempt a small sample fetch through the selected provider, then pass normalized bars into small_sample_data_gate.";
    }

unfoldable pub select_provider_candidate :
    ProviderFallbackSelectionRequest → ProviderFallbackSelectionResult
unfolding build_default_fallback_order status_by_name_last_wins first_available selection
select_provider_candidate request =
    let order = build_default_fallback_order request.preference in
    let statuses = status_by_name_last_wins request.candidates in
    selection statuses order request.require_available (first_available statuses order)
