-- ===== src/ReportingStore/Keeps.antt =====
-- What each single write of src/quantpilot_core/continuous_paper/store.py leaves in place: the
-- rows by their places, and the writes that keep them.
use quant_pilot_ai_next.Base.{
  String, ◌≡◌, Bool, true, false, Option, none, some, [], ◌∷◌, ◌++◌, arith, Call, returned, raised,
  if◌then◌else◌, Bool-cases, Option-cases, inl, inr,
}
use quant_pilot_ai_next.Text.{◌==◌, eq_iff}
use quant_pilot_ai_next.Dict.{lookup, insert, lookup-insert}
use quant_pilot_ai_next.ReportingStore.Rows.{
  Json, Row, FactKey, same_fact, Table, find, sealed, put_sealed, immutable,
}
use quant_pilot_ai_next.ReportingStore.Cycle.{
  Tables, Write, same_text, ◌then_write◌, resume, fail, upsert_session, upsert_report,
  upsert_learning, upsert_shadow, write_fact,
}

-- where a row stands
pub data Place : Type 0 where
  session report learning shadow : String → Place
  fact : String → FactKey → Place

find-append :
    {K J : Type 0} (same_key : K → K → Bool) (k : K) (t more : Table K J) (row : Row J)
    → find same_key k t ≡ some row
    → find same_key k (t ++ more) ≡ some row
unfolding find
find-append same_key k [] more row h = cc
find-append same_key k ((j, r) ∷ t) more row h =
    kept r row (same_key j k) (find same_key k t) (find same_key k (t ++ more))
      (find-append same_key k t more row) h
  where
    kept :
        {A : Type 0} (a b : A) (found : Bool) (old new : Option A)
        → (old ≡ some b → new ≡ some b)
        → (if found then some a else old) ≡ some b
        → (if found then some a else new) ≡ some b
    kept a b true old new f e = e
    kept a b false old new f e = f e

module _ {K J : Type 0} ⦃json : Json J⦄ where
  put_sealed-find :
      (same_key : K → K → Bool) (table : Table K J) (key j : K) (digest_key : String)
      (entry : J × Row J) (prior : Option (Row J)) {row : Row J}
      → find same_key j table ≡ some row
      → find same_key j (put_sealed table key digest_key entry prior).1 ≡ some row
  unfolding put_sealed
  put_sealed-find same_key table key j digest_key (digest, r) none h =
      find-append same_key j table ((key, r) ∷ []) _ h
  put_sealed-find same_key table key j digest_key (digest, r) (some prior) h = ground arith

  immutable-find :
      (same_key : K → K → Bool) (table : Table K J) (key j : K) (value : Row J)
      (digest_key : String) {row : Row J}
      → find same_key j table ≡ some row
      → find same_key j (immutable same_key table key value digest_key).1 ≡ some row
  unfolding immutable
  immutable-find same_key table key j value digest_key h =
      put_sealed-find same_key table key j digest_key (sealed digest_key value)
        (find same_key key table) h

module _ {J : Type 0} where
  fact_in : FactKey → Option (Table FactKey J) → Option (Row J)
  fact_in key none = none
  fact_in key (some table) = find same_fact key table

  -- the row at a place
  unfoldable pub row_at : Place → Tables J → Option (Row J)
  unfolding fact_in same_text
  row_at (session sid) t = find same_text sid t.sessions
  row_at (report sid) t = find same_text sid t.reports
  row_at (learning sid) t = find same_text sid t.learning
  row_at (shadow sid) t = find same_text sid t.shadow
  row_at (fact name key) t = fact_in key (lookup name t.facts)

  -- Every row that is stored before a write is stored after it.
  pub record Keeps (write : Write J) : Type 0 where
    pub at :
        (place : Place) (t : Tables J) {row : Row J}
        → row_at place t ≡ some row
        → row_at place (write t).1 ≡ some row

  pub Keeps-then : (first next : Write J) → Keeps first → Keeps next → Keeps (first then_write next)
  Keeps-then first next h k = record {
    at = λ place t e. resumed (first t).0 place (first t).1 (h.at place t e);
  }
    where
      resumed :
          (outcome : Call (Unit {0})) (place : Place) (t : Tables J) {row : Row J}
          → row_at place t ≡ some row
          → row_at place (resume outcome next t).1 ≡ some row
      resumed (returned value) place t e = k.at place t e
      resumed (raised problem) place t e = e

  pub Keeps-fail : (outcome : Call (Unit {0})) → Keeps (fail outcome)
  Keeps-fail outcome = record { at = λ place t e. e }

module _ {J : Type 0} ⦃json : Json J⦄ where
  pub upsert_session-row_at :
      (place : Place) (sid : String) (row : Row J) (t : Tables J) {r : Row J}
      → row_at place t ≡ some r
      → row_at place (upsert_session sid row t).1 ≡ some r
  unfolding row_at upsert_session
  upsert_session-row_at (session j) sid row t h =
      immutable-find same_text t.sessions sid j row "report_digest" h
  upsert_session-row_at _ sid row t h = h

  pub upsert_report-row_at :
      (place : Place) (sid : String) (row : Row J) (t : Tables J) {r : Row J}
      → row_at place t ≡ some r
      → row_at place (upsert_report sid row t).1 ≡ some r
  unfolding row_at upsert_report
  upsert_report-row_at (report j) sid row t h =
      immutable-find same_text t.reports sid j _ "payload_digest" h
  upsert_report-row_at _ sid row t h = h

  pub upsert_learning-row_at :
      (place : Place) (sid : String) (row : Row J) (t : Tables J) {r : Row J}
      → row_at place t ≡ some r
      → row_at place (upsert_learning sid row t).1 ≡ some r
  unfolding row_at upsert_learning
  upsert_learning-row_at (learning j) sid row t h =
      immutable-find same_text t.learning sid j _ "payload_digest" h
  upsert_learning-row_at _ sid row t h = h

  pub upsert_shadow-row_at :
      (place : Place) (sid : String) (row : Row J) (t : Tables J) {r : Row J}
      → row_at place t ≡ some r
      → row_at place (upsert_shadow sid row t).1 ≡ some r
  unfolding row_at upsert_shadow
  upsert_shadow-row_at (shadow j) sid row t h =
      immutable-find same_text t.shadow sid j _ "payload_digest" h
  upsert_shadow-row_at _ sid row t h = h

  replace_facts-row_at :
      (place : Place) (name : String) (t : Tables J) (old new : Table FactKey J) (r : Row J)
      → lookup name t.facts ≡ some old
      → ((key : FactKey) → find same_fact key old ≡ some r → find same_fact key new ≡ some r)
      → row_at place t ≡ some r
      → row_at place (record t { facts = insert name new t.facts }) ≡ some r
  unfolding row_at fact_in
  replace_facts-row_at (session _) name t old new r found keeps h = h
  replace_facts-row_at (report _) name t old new r found keeps h = h
  replace_facts-row_at (learning _) name t old new r found keeps h = h
  replace_facts-row_at (shadow _) name t old new r found keeps h = h
  replace_facts-row_at (fact other key) name t old new r found keeps h =
      elim (Bool-cases (name == other)) [
        | inl e ↦ ground (arith, lookup-insert name other new t.facts, eq_iff name other, keeps key)
        | inr e ↦ ground (arith, lookup-insert name other new t.facts)
      ]

  pub write_fact-row_at :
      (place : Place) (name : String) (key : FactKey) (item : Row J) (t : Tables J) (r : Row J)
      → row_at place t ≡ some r
      → row_at place (write_fact name key item t).1 ≡ some r
  unfolding write_fact
  write_fact-row_at place name key item t r h = elim (Option-cases (lookup name t.facts)) [
    | inl missing ↦ rw (write_fact, missing) h
    | inr (table, found) ↦
        rw (write_fact, found)
          (replace_facts-row_at place name t table _ r found
            (λ j stands. immutable-find same_fact table key j item "payload_digest" stands) h)
  ]
