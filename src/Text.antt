-- ===== src/Text.antt =====
-- What the program does with Python's `str`: equality, `strip`, `lower`, `in` and `join`.
pub mod Strip
use Prim.Native.Char.{code}
use Prim.Native.String
pub use text.Mathlib.Text.{◌==◌}
pub use text.Mathlib.TextEquality.{eq_iff}
pub use text.Mathlib.TextPositions.{eq_refl}
use quant_pilot_ai_next.Base.{
  ℕ, ◌+◌, String, ◌≡◌, refl, Bool, true, false, ◌&&◌, ◌||◌, List, [], ◌∷◌, All, leb, ◌==◌ as eq_ℕ,
  if◌then◌else◌, any, Bool-cases, inl, inr, ◌≢◌,
}

-- The code points of a text. `String` has its own `[]` and `∷`.
abbrev pub code_points : String → List ℕ
code_points String.[] = []
code_points (String.◌∷◌ c s) = code c ∷ code_points s

-- The characters that `str.isspace` accepts, which `strip` removes.
unfoldable pub is_space : ℕ → Bool
is_space c =
    (leb 9 c && leb c 13)
    || (leb 28 c && leb c 32)
    || eq_ℕ c 0x85
    || eq_ℕ c 0xa0
    || eq_ℕ c 0x1680
    || (leb 0x2000 c && leb c 0x200a)
    || eq_ℕ c 0x2028
    || eq_ℕ c 0x2029
    || eq_ℕ c 0x202f
    || eq_ℕ c 0x205f
    || eq_ℕ c 0x3000

blank_codes : List ℕ → Bool
unfolding is_space
blank_codes [] = true
blank_codes (c ∷ cs) = is_space c && blank_codes cs

-- `not s.strip()`
unfoldable pub is_blank : String → Bool
unfolding blank_codes
is_blank s = blank_codes (code_points s)

-- `s.lower()`, as far as it bears on the search for a text of ASCII letters: U+0130 becomes `i`
-- with a combining dot, U+212A becomes `k`, and no other character outside ASCII becomes ASCII.
unfoldable pub lower_codes : List ℕ → List ℕ
lower_codes [] = []
lower_codes (c ∷ cs) =
    let rest = lower_codes cs in
    if leb b'A' c && leb c b'Z'
    then (c + 32) ∷ rest
    else if eq_ℕ c 0x130
    then b'i' ∷ 0x307 ∷ rest
    else if eq_ℕ c 0x212a
    then b'k' ∷ rest
    else c ∷ rest

has_prefix : List ℕ → List ℕ → Bool
has_prefix [] cs = true
has_prefix (p ∷ ps) [] = false
has_prefix (p ∷ ps) (c ∷ cs) = eq_ℕ p c && has_prefix ps cs

occurs : List ℕ → List ℕ → Bool
unfolding has_prefix
occurs p [] = has_prefix p []
occurs p (c ∷ cs) = has_prefix p (c ∷ cs) || occurs p cs

-- `term in s.lower()`
unfoldable pub occurs_lower : String → String → Bool
unfolding lower_codes occurs
occurs_lower term s = occurs (code_points term) (lower_codes (code_points s))

-- `s.lower()` of an ASCII text
ascii_lower : List ℕ → List ℕ
ascii_lower [] = []
ascii_lower (c ∷ cs) = (if leb b'A' c && leb c b'Z' then c + 32 else c) ∷ ascii_lower cs

-- `term.lower() in s.lower()` for an ASCII term
unfoldable pub occurs_both_lower : String → String → Bool
unfolding ascii_lower lower_codes occurs
occurs_both_lower term s = occurs (ascii_lower (code_points term)) (lower_codes (code_points s))

-- `sep.join(xs)`
unfoldable pub join : String → List String → String
join sep [] = ""
join sep (x ∷ []) = x
join sep (x ∷ y ∷ xs) = String.◌++◌ x (String.◌++◌ sep (join sep (y ∷ xs)))

-- `s in xs`
abbrev pub contains : String → List String → Bool
contains s xs = any (λ x. x == s) xs

-- no two texts of the list are equal
abbrev pub Distinct : List String → Type 0
Distinct [] = Unit
Distinct (x ∷ xs) = All (λ y. x == y ≡ false) xs × Distinct xs

pub eq_ne : (s t : String) → s ≢ t → s == t ≡ false
eq_ne s t h = elim (Bool-cases (s == t)) [ inl e ↦ absurd (h ((eq_iff s t).0 e)) | inr e ↦ e ]

texts :
    (is_blank " \t" ≡ true)
    × (is_blank " a" ≡ false)
    × (occurs_lower "live order" "A LIVE Order!" ≡ true)
    × (join "; " ("a" ∷ "b" ∷ []) ≡ "a; b")
unfolding is_blank occurs_lower join
texts = (refl, refl, refl, refl)
