-- ===== src/ReportingStore/Cycle.antt =====
-- `persist_cycle` and `_write_bundle` of `InMemoryReportingStore` in
-- src/quantpilot_core/continuous_paper/store.py, and its single-row helpers.
use quant_pilot_ai_next.Base.{
  String, Bool, Option, none, some, List, [], ◌∷◌, Call, returned, raised, key_error, value_error,
  if◌then◌else◌, true,
}
use quant_pilot_ai_next.Int.{ℤ, pos}
use quant_pilot_ai_next.Text.{◌==◌}
use quant_pilot_ai_next.Dict.{Dict, lookup, insert}
use quant_pilot_ai_next.ReportingStore.Rows.{Json, Row, FactKey, same_fact, Table, immutable}

pub record Tables (J : Type 0) : Type 0 where
  pub sessions : Table String J
  pub reports : Table String J
  pub learning : Table String J
  pub shadow : Table String J
  pub facts : Dict (Table FactKey J)

pub record Bundle (J : Type 0) : Type 0 where
  pub session : Row J
  pub report : Row J
  pub learning : Row J
  pub shadow : Row J
  pub facts : List (String × List (Row J))

-- A write changes the tables and may raise; what it wrote before it raised stays written.
abbrev pub Write : Type 0 → Type 0
Write J = Tables J → Call (Unit {0}) × Tables J

unfoldable pub same_text : String → String → Bool
same_text a b = a == b

-- Which tables of `tables` in `persist_cycle` are copies: the four dictionaries of rows, and the
-- dictionaries of rows inside that of the facts. The others are the store's own.
pub record Copied : Type 0 where
  pub sessions : Bool
  pub reports : Bool
  pub learning : Bool
  pub shadow : Bool
  pub fact_rows : Bool

-- `dict(self.sessions)` and so on, and `{name: dict(rows) for name, rows in self.facts.items()}`
unfoldable pub dict_copies : Copied
dict_copies = record {
  sessions = true;
  reports = true;
  learning = true;
  shadow = true;
  fact_rows = true;
}

module _ {J : Type 0} where
  abbrev pub fail : Call (Unit {0}) → Write J
  fail outcome t = (outcome, t)

  abbrev pub resume : Call (Unit {0}) → Write J → Write J
  resume (returned value) next t = next t
  resume (raised problem) next t = (raised problem, t)

  -- one write after the other, unless the first raises
  infixl 10 ◌then_write◌
  abbrev pub ◌then_write◌ : Write J → Write J → Write J
  ◌then_write◌ first next t = let (outcome, t') = first t in resume outcome next t'

module _ {J : Type 0} ⦃json : Json J⦄ where
  unfoldable pub upsert_session : String → Row J → Write J
  unfolding immutable same_text
  upsert_session sid row t =
      let (outcome, table) = immutable same_text t.sessions sid row "report_digest" in
      (outcome, record t { sessions = table })

  unfoldable pub upsert_report : String → Row J → Write J
  unfolding immutable same_text
  upsert_report sid payload t =
      let (outcome, table) =
        immutable same_text t.reports sid (("payload", json.of_dict payload) ∷ [])
          "payload_digest" in
      (outcome, record t { reports = table })

  unfoldable pub upsert_learning : String → Row J → Write J
  unfolding immutable same_text
  upsert_learning sid payload t =
      let (outcome, table) =
        immutable same_text t.learning sid (("payload", json.of_dict payload) ∷ [])
          "payload_digest" in
      (outcome, record t { learning = table })

  unfoldable pub upsert_shadow : String → Row J → Write J
  unfolding immutable same_text
  upsert_shadow sid payload t =
      let (outcome, table) =
        immutable same_text t.shadow sid (("payload", json.of_dict payload) ∷ [])
          "payload_digest" in
      (outcome, record t { shadow = table })

  -- `self._immutable(facts[table], key, item, "payload_digest")`
  unfoldable pub write_fact : String → FactKey → Row J → Write J
  unfolding immutable lookup insert
  write_fact name key item t = elim (lookup name t.facts) [
    | none ↦ (raised (value_error "unsupported fact table"), t)
    | some table ↦
        let (outcome, table') = immutable same_fact table key item "payload_digest" in
        (outcome, record t { facts = insert name table' t.facts })
  ]

  -- `int(item.get("source_index", 0))`
  unfoldable pub source_index : Row J → Option ℤ
  unfolding lookup
  source_index item = elim (lookup "source_index" item) [
    | none ↦ some (pos 0)
    | some j ↦ json.to_int j
  ]

  -- the key of a row, and its write
  unfoldable pub write_item : String → String → Row J → Write J
  unfolding source_index write_fact
  write_item sid name item t = elim (lookup "source_identity" item) [
    | none ↦ (raised (key_error "source_identity"), t)
    | some identity ↦ elim (source_index item) [
      | none ↦ (raised (value_error "invalid literal for int()"), t)
      | some index ↦
          write_fact name
            (record {
              session = sid;
              source_identity = json.to_text identity;
              source_index = index;
            })
            item t
    ]
  ]

  unfoldable pub write_rows : String → String → List (Row J) → Write J
  unfolding write_item
  write_rows sid name [] = fail (returned tt)
  write_rows sid name (item ∷ rows) = write_item sid name item then_write write_rows sid name rows

  -- `if table not in facts: raise ValueError`, then its rows
  unfoldable pub write_table : String → String → List (Row J) → Write J
  unfolding write_rows
  write_table sid name rows t = elim (lookup name t.facts) [
    | none ↦ (raised (value_error "unsupported fact table"), t)
    | some table ↦ write_rows sid name rows t
  ]

  unfoldable pub write_facts : String → List (String × List (Row J)) → Write J
  unfolding write_table
  write_facts sid [] = fail (returned tt)
  write_facts sid ((name, rows) ∷ facts) =
      write_table sid name rows then_write write_facts sid facts

  -- `_write_bundle`
  unfoldable pub write_bundle : Bundle J → Write J
  unfolding upsert_session upsert_report upsert_learning upsert_shadow write_facts lookup
  write_bundle bundle t = elim (lookup "session_id" bundle.session) [
    | none ↦ (raised (key_error "session_id"), t)
    | some id ↦
        let sid = json.to_text id in
        (upsert_session sid bundle.session
            then_write upsert_report sid bundle.report
            then_write upsert_learning sid bundle.learning
            then_write upsert_shadow sid bundle.shadow
            then_write write_facts sid bundle.facts)
          t
  ]

  -- The store's own tables after writes that went to `tables` and were not assigned: a table of which
  -- `tables` has a copy stands as it did, and one that `tables` shares shows what was written.
  unfoldable pub unassigned : Copied → Tables J → Tables J → Tables J
  unassigned copied before after = record {
    sessions = if copied.sessions then before.sessions else after.sessions;
    reports = if copied.reports then before.reports else after.reports;
    learning = if copied.learning then before.learning else after.learning;
    shadow = if copied.shadow then before.shadow else after.shadow;
    facts = if copied.fact_rows then before.facts else after.facts;
  }

  -- the assignment of `tables` to the store, which an exception skips
  unfoldable pub commit :
      Copied → Tables J → Call (Unit {0}) × Tables J → Call (Unit {0}) × Tables J
  unfolding unassigned
  commit copied before (returned value, after) = (returned value, after)
  commit copied before (raised problem, after) = (raised problem, unassigned copied before after)

  unfoldable pub persist_cycle : Bundle J → Write J
  unfolding commit write_bundle dict_copies
  persist_cycle bundle t = commit dict_copies t (write_bundle bundle t)
