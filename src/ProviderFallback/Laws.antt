-- ===== src/ProviderFallback/Laws.antt =====
-- What `select_provider_candidate` of src/quantpilot_core/provider_fallback_selector/selector.py selects.
use quant_pilot_ai_next.Base.{
  ◌≡◌, refl, ◌∙◌, sym, ap, Option-cases, inl, inr, Bool, true, false, Option, none, some, List, [],
  ◌∷◌, arith, not, is_none, if◌then◌else◌,
}
use quant_pilot_ai_next.ProviderFallback.Selector.{
  ProviderAvailability, is_disabled, ProviderCandidateName, akshare, baostock, akshare_first,
  baostock_first, ProviderFallbackPreference, ProviderCandidateStatus,
  ProviderFallbackSelectionRequest, Statuses, same_name, is_available, build_default_fallback_order,
  status_by_name_from, status_by_name_last_wins, normalized_status, first_available, selection,
  select_provider_candidate,
}

-- the report about a provider that stands last, if there is one
unfoldable pub last_report :
    ProviderCandidateName → List ProviderCandidateStatus → Option ProviderCandidateStatus
last_report name [] = none
last_report name (candidate ∷ candidates) = elim (last_report name candidates) [
  | some later ↦ some later
  | none ↦ if same_name candidate.name name then some candidate else none
]

-- the last report about a provider says that it is available
abbrev pub is_reported : ProviderCandidateName → List ProviderCandidateStatus → Bool
is_reported name candidates = elim (last_report name candidates) [
  | none ↦ false
  | some status ↦ is_available status.availability
]

or_else :
    Option ProviderCandidateStatus → Option ProviderCandidateStatus → Option ProviderCandidateStatus
or_else none other = other
or_else (some status) other = some status

status_by_name_from_lem :
    (statuses : Statuses) (candidates : List ProviderCandidateStatus) (name : ProviderCandidateName)
    → status_by_name_from statuses candidates name
      ≡ or_else (last_report name candidates) (statuses name)
unfolding status_by_name_from last_report or_else
status_by_name_from_lem statuses [] name = refl
status_by_name_from_lem statuses (candidate ∷ candidates) name = ground (
  arith,
  status_by_name_from_lem (λ n. if same_name candidate.name n then some candidate else statuses n)
      candidates name,
)

same_name-eq : (a b : ProviderCandidateName) → same_name a b ≡ true → a ≡ b
same_name-eq akshare akshare h = refl
same_name-eq akshare baostock h = absurd (ground arith)
same_name-eq baostock akshare h = absurd (ground arith)
same_name-eq baostock baostock h = refl

last_report-name :
    (name : ProviderCandidateName) (candidates : List ProviderCandidateStatus)
    (status : ProviderCandidateStatus)
    → last_report name candidates ≡ some status
    → status.name ≡ name
unfolding last_report
last_report-name name [] status h = ground arith
last_report-name name (candidate ∷ candidates) status h =
    ground (arith, last_report-name name candidates status, same_name-eq candidate.name name)

statuses-last_report :
    (candidates : List ProviderCandidateStatus) (name : ProviderCandidateName)
    → status_by_name_last_wins candidates name ≡ last_report name candidates
unfolding status_by_name_last_wins or_else
statuses-last_report candidates name =
    ground (arith, status_by_name_from_lem (λ n. none) candidates name)

normalized-is_reported :
    (candidates : List ProviderCandidateStatus) (name : ProviderCandidateName)
    → is_available (normalized_status (status_by_name_last_wins candidates) name).availability
      ≡ is_reported name candidates
unfolding normalized_status
normalized-is_reported candidates name = ground (arith, statuses-last_report candidates name)

normalized-name :
    (candidates : List ProviderCandidateStatus) (name : ProviderCandidateName)
    → (normalized_status (status_by_name_last_wins candidates) name).name ≡ name
unfolding normalized_status
normalized-name candidates name = elim (Option-cases (last_report name candidates)) [
  | inl silent ↦ ground (arith, statuses-last_report candidates name)
  | inr (status, found) ↦
      ground (arith, statuses-last_report candidates name, last_report-name name candidates status)
]

module _ (candidates : List ProviderCandidateStatus) where
  first_available-reported :
      (p f : ProviderCandidateName)
      → first_available (status_by_name_last_wins candidates) (p ∷ f ∷ []) ≡ (
          if is_reported p candidates
          then some p
          else if is_reported f candidates
          then some f
          else none)
  unfolding first_available
  first_available-reported p f =
      rw
        (
          first_available,
          normalized-is_reported candidates p,
          normalized-is_reported candidates f,
          normalized-name candidates p,
          normalized-name candidates f,
        )
        refl

  first_available-available :
      (p f selected : ProviderCandidateName)
      → first_available (status_by_name_last_wins candidates) (p ∷ f ∷ []) ≡ some selected
      → is_reported selected candidates ≡ true
  first_available-available p f selected h =
      reported (is_reported p candidates) (is_reported f candidates) refl refl
        (sym (first_available-reported p f) ∙ h)
    where
      reported :
          (a b : Bool)
          → is_reported p candidates ≡ a
          → is_reported f candidates ≡ b
          → (if a then some p else if b then some f else none) ≡ some selected
          → is_reported selected candidates ≡ true
      reported true b e g k = cc
      reported false true e g k = cc
      reported false false e g k = absurd (ground arith)

  selection-selected :
      (order : List ProviderCandidateName) (require_available : Bool)
      (s : Option ProviderCandidateName)
      → (selection
          (status_by_name_last_wins candidates)
          order
          require_available
          s).selected_provider
        ≡ s
  unfolding selection
  selection-selected order require_available none = refl
  selection-selected order require_available (some selected) = refl

  selection-can_attempt :
      (order : List ProviderCandidateName) (require_available : Bool)
      (s : Option ProviderCandidateName)
      → ((selected : ProviderCandidateName)
          → s ≡ some selected
          → is_reported selected candidates ≡ true)
      → (selection
          (status_by_name_last_wins candidates)
          order
          require_available
          s).can_attempt_fetch
        ≡ not (is_none s)
  unfolding selection
  selection-can_attempt order require_available none h = refl
  selection-can_attempt order require_available (some selected) h =
      attempted require_available
        (normalized_status (status_by_name_last_wins candidates) selected).availability
        (normalized-is_reported candidates selected ∙ h selected refl)
    where
      attempted :
          (require_available : Bool) (availability : ProviderAvailability)
          → is_available availability ≡ true
          → (if require_available
              then is_available availability
              else not (is_disabled availability))
            ≡ true
      attempted b availability e = ground arith

abbrev pub preferred : ProviderFallbackPreference → ProviderCandidateName
preferred akshare_first = akshare
preferred baostock_first = baostock

abbrev pub fallback : ProviderFallbackPreference → ProviderCandidateName
fallback akshare_first = baostock
fallback baostock_first = akshare

build_default_fallback_order_lem :
    (preference : ProviderFallbackPreference)
    → build_default_fallback_order preference ≡ preferred preference ∷ fallback preference ∷ []
unfolding build_default_fallback_order
build_default_fallback_order_lem akshare_first = refl
build_default_fallback_order_lem baostock_first = refl

-- the selection from the order of the two providers
in_order :
    (preference : ProviderFallbackPreference) (candidates : List ProviderCandidateStatus)
    (require_available : Bool)
    → let order = preferred preference ∷ fallback preference ∷ [] in
      let statuses = status_by_name_last_wins candidates in
      let result = selection statuses order require_available (first_available statuses order) in
      (result.selected_provider ≡ (
        if is_reported (preferred preference) candidates
        then some (preferred preference)
        else if is_reported (fallback preference) candidates
        then some (fallback preference)
        else none))
      × (result.can_attempt_fetch ≡ not (is_none result.selected_provider))
in_order preference candidates require_available =
    let p = preferred preference in
    let f = fallback preference in
    let order : List ProviderCandidateName = p ∷ f ∷ [] in
    let s = first_available (status_by_name_last_wins candidates) order in
    let selected = selection-selected candidates order require_available s in
    (
      selected ∙ first_available-reported candidates p f,
      selection-can_attempt candidates order require_available s
            (first_available-available candidates p f)
          ∙ sym (ap (λ x. not (is_none x)) selected),
    )

-- The preferred provider is selected where the last report about it says that it is available, else
-- the other one where the last report about that does, else none; and a fetch may be attempted exactly
-- where a provider is selected, whether the request requires an available one or not.
pub select_provider_candidate_lem :
    (request : ProviderFallbackSelectionRequest)
    → ((select_provider_candidate request).selected_provider ≡ (
        if is_reported (preferred request.preference) request.candidates
        then some (preferred request.preference)
        else if is_reported (fallback request.preference) request.candidates
        then some (fallback request.preference)
        else none))
      × ((select_provider_candidate request).can_attempt_fetch
          ≡ not (is_none (select_provider_candidate request).selected_provider))
unfolding select_provider_candidate
select_provider_candidate_lem request =
    rw (select_provider_candidate, build_default_fallback_order_lem request.preference)
      (in_order request.preference request.candidates request.require_available)
