-- ===== src/ProviderFallback/Tests.antt =====
-- A request whose preferred provider was reported twice, and last as missing.
use quant_pilot_ai_next.Base.{◌≡◌, refl, true, some, [], ◌∷◌, not, is_none}
use quant_pilot_ai_next.ProviderFallback.Selector.{
  akshare, baostock, akshare_first, available, missing, ProviderFallbackSelectionRequest,
  select_provider_candidate,
}
use quant_pilot_ai_next.ProviderFallback.Laws.{last_report, select_provider_candidate_lem}

abbrev request : ProviderFallbackSelectionRequest
request = record {
  candidates =
      record { name = akshare; availability = available; reason = "" }
      ∷ record { name = baostock; availability = available; reason = "" }
      ∷ record { name = akshare; availability = missing; reason = "not installed" }
      ∷ [];
  preference = akshare_first;
  require_available = true;
}

select_provider_candidate_lem_example :
    ((select_provider_candidate request).selected_provider ≡ some baostock)
    × ((select_provider_candidate request).can_attempt_fetch
        ≡ not (is_none (select_provider_candidate request).selected_provider))
unfolding last_report
select_provider_candidate_lem_example = select_provider_candidate_lem request

last_report_wins :
    (select_provider_candidate request).warnings ≡ "akshare missing: not installed" ∷ []
unfolding select_provider_candidate
last_report_wins = refl
