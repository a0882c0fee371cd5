-- ===== src/ReportingStore/Laws.antt =====
-- `_write_bundle` and `persist_cycle` of src/quantpilot_core/continuous_paper/store.py keep every
-- stored row, and change nothing where they raise.
use quant_pilot_ai_next.Base.{
  String, ◌≡◌, refl, ap, false, some, List, [], ◌∷◌, arith, Call, PyError, returned, raised,
  reporting_conflict_error, Option-cases, inl, inr,
}
use quant_pilot_ai_next.Dict.{lookup}
use quant_pilot_ai_next.ReportingStore.Rows.{Json, Row, sealed, put_sealed, immutable}
use quant_pilot_ai_next.ReportingStore.Cycle.{
  Tables, Bundle, Write, resume, ◌then_write◌, same_text, upsert_session, upsert_report,
  upsert_learning, upsert_shadow, write_item, write_rows, write_table, write_facts, write_bundle,
  commit, persist_cycle, source_index, unassigned, dict_copies,
}
use quant_pilot_ai_next.ReportingStore.Keeps.{
  Place, session, row_at, Keeps, Keeps-then, Keeps-fail, upsert_session-row_at,
  upsert_report-row_at, upsert_learning-row_at, upsert_shadow-row_at, write_fact-row_at,
}

-- what follows a write that raises is not run
then_write-raises :
    {J : Type 0} (first next : Write J) (t : Tables J) (problem : PyError)
    → first t ≡ (raised problem, t)
    → (first then_write next) t ≡ (raised problem, t)
then_write-raises first next t problem e = ap (λ r. resume r.0 next r.1) e

module _ {J : Type 0} ⦃json : Json J⦄ where
  write_item-Keeps : (sid name : String) (item : Row J) → Keeps (write_item sid name item)
  unfolding write_item
  write_item-Keeps sid name item = record {
    at = λ place t e. elim (Option-cases (lookup "source_identity" item)) [
      | inl missing ↦ rw (write_item, missing) e
      | inr (identity, found) ↦ elim (Option-cases (source_index item)) [
        | inl missing ↦ rw (write_item, found, missing) e
        | inr (index, indexed) ↦
            rw (write_item, found, indexed) (write_fact-row_at place name _ item t _ e)
      ]
    ];
  }

  write_rows-Keeps : (sid name : String) (rows : List (Row J)) → Keeps (write_rows sid name rows)
  unfolding write_rows
  write_rows-Keeps sid name [] = Keeps-fail (returned tt)
  write_rows-Keeps sid name (item ∷ rows) =
      Keeps-then _ _ (write_item-Keeps sid name item) (write_rows-Keeps sid name rows)

  write_table-Keeps : (sid name : String) (rows : List (Row J)) → Keeps (write_table sid name rows)
  unfolding write_table
  write_table-Keeps sid name rows = record {
    at = λ place t e. elim (Option-cases (lookup name t.facts)) [
      | inl missing ↦ rw (write_table, missing) e
      | inr (table, found) ↦ rw (write_table, found) ((write_rows-Keeps sid name rows).at place t e)
    ];
  }

  write_facts-Keeps :
      (sid : String) (facts : List (String × List (Row J))) → Keeps (write_facts sid facts)
  unfolding write_facts
  write_facts-Keeps sid [] = Keeps-fail (returned tt)
  write_facts-Keeps sid ((name, rows) ∷ facts) =
      Keeps-then _ _ (write_table-Keeps sid name rows) (write_facts-Keeps sid facts)

  write_bundle-Keeps : (bundle : Bundle J) → Keeps (write_bundle bundle)
  unfolding write_bundle
  write_bundle-Keeps bundle = record {
    at = λ place t e. elim (Option-cases (lookup "session_id" bundle.session)) [
      | inl missing ↦ rw (write_bundle, missing) e
      | inr (id, found) ↦
          let sid = json.to_text id in
          let session_kept : Keeps (upsert_session sid bundle.session) = record {
            at = λ place t e. upsert_session-row_at place sid bundle.session t e;
          } in
          let report_kept : Keeps (upsert_report sid bundle.report) = record {
            at = λ place t e. upsert_report-row_at place sid bundle.report t e;
          } in
          let learning_kept : Keeps (upsert_learning sid bundle.learning) = record {
            at = λ place t e. upsert_learning-row_at place sid bundle.learning t e;
          } in
          let shadow_kept : Keeps (upsert_shadow sid bundle.shadow) = record {
            at = λ place t e. upsert_shadow-row_at place sid bundle.shadow t e;
          } in
          rw (write_bundle, found)
            ((Keeps-then _ _
                (Keeps-then _ _
                  (Keeps-then _ _ (Keeps-then _ _ session_kept report_kept) learning_kept)
                  shadow_kept)
                (write_facts-Keeps sid bundle.facts)).at
              place t e)
    ];
  }

  -- Committing a cycle, whether it succeeds or raises, leaves every row in place that was stored
  -- before, at its place in the five kinds of tables and with its contents.
  pub persist_cycle-row_at :
      (bundle : Bundle J) (place : Place) (t : Tables J) (row : Row J)
      → row_at place t ≡ some row
      → row_at place (persist_cycle bundle t).1 ≡ some row
  unfolding persist_cycle commit unassigned dict_copies
  persist_cycle-row_at bundle place t row h =
      committed (write_bundle bundle t) ((write_bundle-Keeps bundle).at place t h)
    where
      committed :
          (outcome : Call (Unit {0}) × Tables J)
          → row_at place outcome.1 ≡ some row
          → row_at place (commit dict_copies t outcome).1 ≡ some row
      committed (returned value, after) e = e
      committed (raised problem, after) e = h

  -- Where a cycle raises, no table of the store is changed.
  pub persist_cycle_raises :
      (bundle : Bundle J) (t : Tables J) (problem : PyError)
      → (persist_cycle bundle t).0 ≡ raised problem
      → (persist_cycle bundle t).1 ≡ t
  unfolding persist_cycle commit unassigned dict_copies
  persist_cycle_raises bundle t problem = committed (write_bundle bundle t)
    where
      committed :
          (outcome : Call (Unit {0}) × Tables J)
          → (commit dict_copies t outcome).0 ≡ raised problem
          → (commit dict_copies t outcome).1 ≡ t
      committed (returned value, after) e = ground arith
      committed (raised other, after) e = refl

  upsert_session_conflicts :
      (sid : String) (row : Row J) (t : Tables J) (old : J) (prior : Row J)
      → row_at (session sid) t ≡ some prior
      → lookup "report_digest" prior ≡ some old
      → json.same old (sealed "report_digest" row).0 ≡ false
      → upsert_session sid row t
        ≡ (raised (reporting_conflict_error "conflicting digest for identity"), t)
  unfolding upsert_session immutable row_at same_text
  upsert_session_conflicts sid row t old prior stands digest differs =
      rw (upsert_session, stands, put_sealed, digest, differs) refl

  -- A session that is stored with another digest than the one of the new report is refused: the
  -- cycle raises a conflict, and no table is changed.
  pub persist_cycle_conflicts :
      (bundle : Bundle J) (t : Tables J) (id old : J) (prior : Row J)
      → lookup "session_id" bundle.session ≡ some id
      → row_at (session (json.to_text id)) t ≡ some prior
      → lookup "report_digest" prior ≡ some old
      → json.same old (sealed "report_digest" bundle.session).0 ≡ false
      → persist_cycle bundle t
        ≡ (raised (reporting_conflict_error "conflicting digest for identity"), t)
  unfolding persist_cycle commit unassigned dict_copies write_bundle
  persist_cycle_conflicts bundle t id old prior named stands digest differs =
      let sid = json.to_text id in
      let first : Write J = upsert_session sid bundle.session in
      let second : Write J = upsert_report sid bundle.report in
      let third : Write J = upsert_learning sid bundle.learning in
      let fourth : Write J = upsert_shadow sid bundle.shadow in
      let conflict =
        upsert_session_conflicts sid bundle.session t old prior stands digest differs in
      rw (persist_cycle, write_bundle, named)
        (ap (commit dict_copies t) (
          then_write-raises (first then_write second then_write third then_write fourth)
            (write_facts sid bundle.facts) t _
            (then_write-raises (first then_write second then_write third) fourth t _ (
              then_write-raises (first then_write second) third t _
                (then_write-raises first second t _ conflict)))))
