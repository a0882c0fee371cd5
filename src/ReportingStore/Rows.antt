-- ===== src/ReportingStore/Rows.antt =====
-- Rows and tables of `InMemoryReportingStore`, and `_immutable`. JSON values are abstract: their
-- serialisation, SHA-256, `str` and `int` are a parameter, since Python's libraries compute them.
use quant_pilot_ai_next.Base.{
  String, Bool, ◌&&◌, Option, none, some, List, [], ◌∷◌, ◌++◌, if◌then◌else◌, Call, returned,
  raised, key_error, reporting_conflict_error,
}
use quant_pilot_ai_next.Int.{ℤ, eq_ℤ}
use quant_pilot_ai_next.Text.{◌==◌}
use quant_pilot_ai_next.Dict.{Dict, lookup, insert}

pub record Json (J : Type 0) : Type 0 where
  pub of_text : String → J
  pub of_dict : Dict J → J
  -- `payload_digest`: the SHA-256 of the canonical JSON
  pub payload_digest : J → String
  -- `==` on two values, `str(value)` and `int(value)`, with `none` where `int` raises
  pub same : J → J → Bool
  pub to_text : J → String
  pub to_int : J → Option ℤ

abbrev pub Row : Type 0 → Type 0
Row J = Dict J

-- a key of a fact table: session, source identity, source index
pub record FactKey : Type 0 where
  pub session : String
  pub source_identity : String
  pub source_index : ℤ

abbrev pub same_fact : FactKey → FactKey → Bool
same_fact a b =
    a.session == b.session
    && (a.source_identity == b.source_identity && eq_ℤ a.source_index b.source_index)

abbrev pub Table : Type 0 → Type 0 → Type 0
Table K J = List (K × Row J)

module _ {K J : Type 0} where
  -- `table.get(key)`
  unfoldable pub find : (K → K → Bool) → K → Table K J → Option (Row J)
  find same_key k [] = none
  find same_key k ((j, row) ∷ t) = if same_key j k then some row else find same_key k t

module _ {J : Type 0} ⦃json : Json J⦄ where
  -- `row.get("payload", row)`
  unfoldable pub payload_of : Row J → J
  unfolding lookup
  payload_of row = elim (lookup "payload" row) [ none ↦ json.of_dict row | some payload ↦ payload ]

  -- `row.setdefault(digest_key, payload_digest(…))`: the digest of the row, and the row with it
  unfoldable pub sealed : String → Row J → J × Row J
  unfolding payload_of lookup
  sealed digest_key row = elim (lookup digest_key row) [
    | some digest ↦ (digest, row)
    | none ↦
        let digest = json.of_text (json.payload_digest (payload_of row)) in
        (digest, insert digest_key digest row)
  ]

module _ {K J : Type 0} ⦃json : Json J⦄ where
  -- the comparison with the row that stands under the key, if one does
  unfoldable pub put_sealed :
      Table K J → K → String → J × Row J → Option (Row J) → Call (Unit {0}) × Table K J
  put_sealed table key digest_key (digest, row) none = (returned tt, table ++ (key, row) ∷ [])
  put_sealed table key digest_key (digest, row) (some prior) = elim (lookup digest_key prior) [
    | none ↦ (raised (key_error digest_key), table)
    | some old ↦
        if json.same old digest
        then (returned tt, table)
        else (raised (reporting_conflict_error "conflicting digest for identity"), table)
  ]

  -- `_immutable`: the table comes back beside the exception too
  unfoldable pub immutable :
      (K → K → Bool) → Table K J → K → Row J → String → Call (Unit {0}) × Table K J
  unfolding put_sealed
  immutable same_key table key value digest_key =
      put_sealed table key digest_key (sealed digest_key value) (find same_key key table)
