-- ===== src/Text/Strip.antt =====
-- Python's `s.strip()`, `s.strip().lower()` against texts of ASCII letters, and `str(n)` of an index.
use Prim.Native.Char.{code}
use Prim.Native.String
use quant_pilot_ai_next.Base.{
  ℕ, zero, suc, ◌/◌, ◌%◌, String, ◌≡◌, refl, Bool, true, false, ◌&&◌, List, [], ◌∷◌, ltb,
  ◌==◌ as eq_ℕ, if◌then◌else◌, any,
}
use quant_pilot_ai_next.Text.{is_space, code_points, lower_codes}

unfoldable pub left_strip : String → String
unfolding is_space
left_strip String.[] = String.[]
left_strip (String.◌∷◌ c s) =
    let rest = left_strip s in if is_space (code c) then rest else String.◌∷◌ c s

is_nil : String → Bool
is_nil String.[] = true
is_nil (String.◌∷◌ c s) = false

unfoldable pub right_strip : String → String
unfolding is_space is_nil
right_strip String.[] = String.[]
right_strip (String.◌∷◌ c s) =
    let rest = right_strip s in
    if is_space (code c) && is_nil rest then String.[] else String.◌∷◌ c rest

-- `s.strip()`
unfoldable pub strip : String → String
unfolding left_strip right_strip
strip s = right_strip (left_strip s)

unfoldable pub same_codes : List ℕ → List ℕ → Bool
same_codes [] [] = true
same_codes [] (d ∷ ds) = false
same_codes (c ∷ cs) [] = false
same_codes (c ∷ cs) (d ∷ ds) = eq_ℕ c d && same_codes cs ds

-- `s.strip().lower() in texts`, for lower-case ASCII texts
unfoldable pub strips_lower_in : String → List String → Bool
unfolding strip lower_codes same_codes
strips_lower_in s texts =
    any (λ t. same_codes (lower_codes (code_points (strip s))) (code_points t)) texts

digit : ℕ → String
digit zero = "0"
digit (suc zero) = "1"
digit (suc (suc zero)) = "2"
digit (suc (suc (suc zero))) = "3"
digit (suc (suc (suc (suc zero)))) = "4"
digit (suc (suc (suc (suc (suc zero))))) = "5"
digit (suc (suc (suc (suc (suc (suc zero)))))) = "6"
digit (suc (suc (suc (suc (suc (suc (suc zero))))))) = "7"
digit (suc (suc (suc (suc (suc (suc (suc (suc zero)))))))) = "8"
digit _ = "9"

-- the digits of `n` before `rest`; each round divides by ten, so that `suc n` rounds are enough
unfoldable pub decimal_from : ℕ → ℕ → String → String
unfolding digit
decimal_from zero n rest = rest
decimal_from (suc fuel) n rest =
    let more = decimal_from fuel (n / 10) (String.◌++◌ (digit (n % 10)) rest) in
    if ltb n 10 then String.◌++◌ (digit n) rest else more

-- `str(n)`
unfoldable pub decimal : ℕ → String
unfolding decimal_from
decimal n = decimal_from (suc n) n ""

stripped :
    (strip " \ta b " ≡ "a b")
    × (strips_lower_in " Yes" ("no" ∷ "yes" ∷ []) ≡ true)
    × (decimal 1203 ≡ "1203")
unfolding strip strips_lower_in decimal
stripped = (refl, refl, refl)
