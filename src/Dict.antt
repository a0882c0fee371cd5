-- ===== src/Dict.antt =====
-- A Python `dict` with string keys: an association list in insertion order, one entry to a key.
use quant_pilot_ai_next.Base.{
  String, ◌≡◌, refl, true, false, Option, none, some, List, [], ◌∷◌, arith, if◌then◌else◌,
}
use quant_pilot_ai_next.Text.{◌==◌, eq_iff, eq_refl}

abbrev pub Dict {ℓ} : Type ℓ → Type ℓ
Dict V = List (String × V)

module _ {ℓ} {V : Type ℓ} where
  -- `d.get(k)`
  unfoldable pub lookup : String → Dict V → Option V
  lookup k [] = none
  lookup k ((j, v) ∷ d) = if j == k then some v else lookup k d

  -- `d[k] = v`: a known key keeps its place, a new one goes to the end.
  unfoldable pub insert : String → V → Dict V → Dict V
  insert k v [] = (k, v) ∷ []
  insert k v ((j, w) ∷ d) = if j == k then (k, v) ∷ d else (j, w) ∷ insert k v d

  -- `d.pop(k, None)`
  unfoldable pub remove : String → Dict V → Dict V
  remove k [] = []
  remove k ((j, v) ∷ d) = let rest = remove k d in if j == k then rest else (j, v) ∷ rest

  -- `d.get(k, x)`
  unfoldable pub get_or : V → String → Dict V → V
  unfolding lookup
  get_or x k d = elim (lookup k d) [ none ↦ x | some v ↦ v ]

  pub lookup-insert :
      (k j : String) (v : V) (d : Dict V)
      → lookup j (insert k v d) ≡ (if k == j then some v else lookup j d)
  unfolding lookup insert
  lookup-insert k j v [] = refl
  lookup-insert k j v ((i, w) ∷ d) =
      ground (arith, eq_iff k j, eq_iff i k, eq_iff i j, lookup-insert k j v d)

  pub lookup-remove :
      (k j : String) (d : Dict V) → lookup j (remove k d) ≡ (if k == j then none else lookup j d)
  unfolding lookup remove
  lookup-remove k j [] = ground arith
  lookup-remove k j ((i, w) ∷ d) =
      ground (arith, eq_iff k j, eq_iff i k, eq_iff i j, lookup-remove k j d)

  pub get_or-insert :
      (x : V) (k j : String) (v : V) (d : Dict V)
      → get_or x j (insert k v d) ≡ (if k == j then v else get_or x j d)
  unfolding get_or
  get_or-insert x k j v d = ground (arith, lookup-insert k j v d)

  pub get_or-insert_self : (x : V) (k : String) (v : V) (d : Dict V) → get_or x k (insert k v d) ≡ v
  get_or-insert_self x k v d = simp (get_or-insert, eq_refl)

  pub get_or-remove :
      (x : V) (k j : String) (d : Dict V)
      → get_or x j (remove k d) ≡ (if k == j then x else get_or x j d)
  unfolding get_or
  get_or-remove x k j d = ground (arith, lookup-remove k j d)

module _ {ℓ κ} {A : Type ℓ} {V : Type κ} where
  -- `{key(x): value(x) for x in xs}`, from the entries so far
  unfoldable pub dict_from : (A → String) → (A → V) → Dict V → List A → Dict V
  unfolding insert
  dict_from key value d [] = d
  dict_from key value d (x ∷ xs) = dict_from key value (insert (key x) (value x) d) xs

  unfoldable pub dict_of : (A → String) → (A → V) → List A → Dict V
  unfolding dict_from
  dict_of key value xs = dict_from key value [] xs

-- Two dictionaries that are built from one list keep a relation between their values.
module _ {ℓ κ ι} {A : Type ℓ} {V U : Type κ} (R : V → U → Type ι) (key : A → String) (v : A → V)
    (w : A → U) (x : V) (y : U) (related : (a : A) → R (v a) (w a)) where
  dict_from-related :
      (d : Dict V) (e : Dict U)
      → ((k : String) → R (get_or x k d) (get_or y k e))
      → (xs : List A) (k : String)
      → R (get_or x k (dict_from key v d xs)) (get_or y k (dict_from key w e xs))
  unfolding dict_from
  dict_from-related d e h [] k = h k
  dict_from-related d e h (a ∷ xs) k =
      dict_from-related (insert (key a) (v a) d) (insert (key a) (w a) e)
        (λ j.
          rw (get_or-insert x (key a) j (v a) d, get_or-insert y (key a) j (w a) e)
            (elim (key a == j)
              as (λ b. R (if b then v a else get_or x j d) (if b then w a else get_or y j e)) [
                | true ↦ related a
                | false ↦ h j
              ]))
        xs k

  pub dict_of-related :
      R x y
      → (xs : List A) (k : String)
      → R (get_or x k (dict_of key v xs)) (get_or y k (dict_of key w xs))
  unfolding dict_of get_or lookup
  dict_of-related h xs k = dict_from-related [] [] (λ j. h) xs k
