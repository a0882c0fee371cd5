-- ===== src/ReportingStore/Tests.antt =====
-- Runs of the reporting store, and its theorems at concrete tables. JSON values are texts here, a
-- digest is the text itself, and every source index is zero.
use quant_pilot_ai_next.Base.{
  String, ◌≡◌, refl, some, [], ◌∷◌, returned, raised, value_error, reporting_conflict_error,
}
use quant_pilot_ai_next.Int.{pos}
use quant_pilot_ai_next.Text.{◌==◌}
use quant_pilot_ai_next.Dict.{lookup}
use quant_pilot_ai_next.ReportingStore.Rows.{Json, Row, find, sealed}
use quant_pilot_ai_next.ReportingStore.Cycle.{Tables, Bundle, source_index, persist_cycle}
use quant_pilot_ai_next.ReportingStore.Keeps.{session, fact, row_at}
use quant_pilot_ai_next.ReportingStore.Laws.{
  persist_cycle-row_at, persist_cycle_raises, persist_cycle_conflicts,
}

instance text_json : Json String
text_json = record {
  of_text = λ s. s;
  of_dict = λ d. "{}";
  payload_digest = λ s. s;
  same = λ a b. a == b;
  to_text = λ s. s;
  to_int = λ s. some (pos 0);
}

abbrev empty_tables : Tables String
empty_tables = record {
  sessions = [];
  reports = [];
  learning = [];
  shadow = [];
  facts = ("paper_orders", []) ∷ [];
}

abbrev order_row : Row String
order_row = ("source_identity", "order-1") ∷ []

abbrev cycle_of : String → String → Bundle String
cycle_of digest table = record {
  session = ("session_id", "s1") ∷ ("report_digest", digest) ∷ [];
  report = [];
  learning = [];
  shadow = [];
  facts = (table, order_row ∷ []) ∷ [];
}

abbrev first_cycle : Bundle String
first_cycle = cycle_of "d1" "paper_orders"

abbrev second_cycle : Bundle String
second_cycle = cycle_of "d2" "paper_orders"

abbrev unknown_fact : Bundle String
unknown_fact = cycle_of "d1" "paper_loans"

abbrev stored : Tables String
stored = (persist_cycle first_cycle empty_tables).1

-- the order's row stands with its digest
first_cycle_stored :
    row_at
      (fact "paper_orders"
        (record { session = "s1"; source_identity = "order-1"; source_index = pos 0 }))
      stored
    ≡ some (("source_identity", "order-1") ∷ ("payload_digest", "{}") ∷ [])
unfolding row_at lookup persist_cycle find text_json sealed source_index
first_cycle_stored = refl

-- the same cycle once more changes nothing
first_cycle_again : persist_cycle first_cycle stored ≡ (returned tt, stored)
unfolding row_at lookup persist_cycle find text_json sealed source_index
first_cycle_again = refl

persist_cycle-row_at_example :
    row_at (session "s1") (persist_cycle second_cycle stored).1 ≡ some first_cycle.session
unfolding row_at lookup persist_cycle find text_json sealed source_index
persist_cycle-row_at_example =
    persist_cycle-row_at second_cycle (session "s1") stored first_cycle.session refl

persist_cycle_raises_example : (persist_cycle unknown_fact empty_tables).1 ≡ empty_tables
unfolding row_at lookup persist_cycle find text_json sealed source_index
persist_cycle_raises_example =
    persist_cycle_raises unknown_fact empty_tables (value_error "unsupported fact table") refl

persist_cycle_conflicts_example :
    persist_cycle second_cycle stored
    ≡ (raised (reporting_conflict_error "conflicting digest for identity"), stored)
unfolding row_at lookup persist_cycle find text_json sealed source_index
persist_cycle_conflicts_example =
    persist_cycle_conflicts second_cycle stored "s1" "d1" first_cycle.session refl refl refl refl
