-- ===== src/Float.antt =====
-- Python's `float`. The operations are a parameter, since the numbers are IEEE doubles; a comparison
-- answers a `Bool`, so that every comparison with NaN is false. `fixed` below meets the laws.
use quant_pilot_ai_next.Base.{
  ℕ, ◌+◌, ◌*◌, ◌/◌, ◌^◌, ◌-◌, ◌≡◌, Bool, false, arith, if◌then◌else◌, List, [], ◌∷◌,
}
use quant_pilot_ai_next.Int.{ℤ, pos, negsuc, pos_part, neg_part, sub_ℕ, ◌+ℤ◌, ◌-ℤ◌, ltb_ℤ, leb_ℤ}

pub record Float (W : Type 0) : Type 0 where
  -- `lit n k` is the literal n / 10^k
  pub lit : ℕ → ℕ → W
  -- Python's conversion of an `int`, which raises `OverflowError` where `fits` is false
  pub fits : ℤ → Bool
  pub of_int : ℤ → W
  pub add : W → W → W
  pub sub : W → W → W
  pub mul : W → W → W
  pub div : W → W → W
  pub neg : W → W
  pub abs : W → W
  pub lt_test : W → W → Bool
  pub le_test : W → W → Bool
  pub round_to : W → ℕ → W

module _ {W : Type 0} ⦃F : Float W⦄ where
  infixl 65 ◌⊕◌ ◌⊖◌
  infixl 70 ◌⊗◌ ◌⊘◌
  abbrev pub ◌⊕◌ : W → W → W
  x ⊕ y = F.add x y

  abbrev pub ◌⊖◌ : W → W → W
  x ⊖ y = F.sub x y

  abbrev pub ◌⊗◌ : W → W → W
  x ⊗ y = F.mul x y

  -- Python raises on a zero divisor: each use stands behind the program's own test.
  abbrev pub ◌⊘◌ : W → W → W
  x ⊘ y = F.div x y

  abbrev pub lt : W → W → Bool
  lt x y = F.lt_test x y

  abbrev pub le : W → W → Bool
  le x y = F.le_test x y

  abbrev pub zero_float : W
  zero_float = F.of_int (pos 0)

  -- `round(x, places)`
  abbrev pub round : W → ℕ → W
  round x places = F.round_to x places

  -- Python's `max(x, y)` and `min(x, y)`: the first unless the second is strictly better.
  abbrev pub max : W → W → W
  max x y = if lt x y then y else x

  abbrev pub min : W → W → W
  min x y = if lt y x then y else x

  -- `sum(xs)`
  unfoldable pub sum_from : W → List W → W
  sum_from acc [] = acc
  sum_from acc (x ∷ xs) = sum_from (acc ⊕ x) xs

-- What IEEE 754 and `round` give for every double, infinities and NaN included.
pub record IsIeee (W : Type 0) ⦃F : Float W⦄ : Type 0 where
  pub sub_not_neg : (x y : W) → lt x y ≡ false → lt (x ⊖ y) zero_float ≡ false
  pub add_not_neg :
      (x y : W) → lt x zero_float ≡ false → lt y zero_float ≡ false → lt (x ⊕ y) zero_float ≡ false
  pub round_not_neg : (x : W) (p : ℕ) → lt x zero_float ≡ false → lt (round x p) zero_float ≡ false
  pub lt_irrefl : (x : W) → lt x x ≡ false
  pub sub_self_not_gt : (x : W) (n k : ℕ) → lt (F.lit n k) (F.abs (x ⊖ x)) ≡ false

-- A concrete instance: whole units of 10^-8, with products and quotients rounded towards zero and
-- `round` to the nearest, a half away from zero.
abbrev unit : ℕ
unit = 100_000_000

abbrev product : ℤ → ℤ → ℤ
product a b =
    sub_ℕ ((pos_part a * pos_part b + neg_part a * neg_part b) / unit)
      ((pos_part a * neg_part b + neg_part a * pos_part b) / unit)

abbrev quotient : ℤ → ℤ → ℤ
quotient a b =
    let size = pos_part b + neg_part b in
    sub_ℕ ((pos_part a * pos_part b + neg_part a * neg_part b) * unit / (size * size))
      ((pos_part a * neg_part b + neg_part a * pos_part b) * unit / (size * size))

abbrev nearest : ℕ → ℕ → ℕ
nearest n p = let step = 10 ^ (8 - p) in (n + step / 2) / step * step

abbrev round_fixed : ℤ → ℕ → ℤ
round_fixed (pos n) p = pos (nearest n p)
round_fixed (negsuc n) p = sub_ℕ 0 (nearest (n + 1) p)

instance abbrev pub fixed : Float ℤ
fixed = record {
  lit = λ n k. pos (n * unit / 10 ^ k);
  fits = λ n. leb_ℤ (pos (pos_part n + neg_part n)) (pos (10 ^ 18));
  of_int = λ n. sub_ℕ (pos_part n * unit) (neg_part n * unit);
  add = λ x y. x +ℤ y;
  sub = λ x y. x -ℤ y;
  mul = product;
  div = quotient;
  neg = λ x. pos 0 -ℤ x;
  abs = λ x. pos (pos_part x + neg_part x);
  lt_test = ltb_ℤ;
  le_test = leb_ℤ;
  round_to = round_fixed;
}

round_fixed_not_neg :
    (x : ℤ) (p : ℕ) → ltb_ℤ x (pos 0) ≡ false → ltb_ℤ (round_fixed x p) (pos 0) ≡ false
round_fixed_not_neg (pos n) p h = ground arith
round_fixed_not_neg (negsuc n) p h = absurd (ground arith)

pub Fixed-IsIeee : IsIeee ℤ
unfolding ◌+ℤ◌ ◌-ℤ◌
Fixed-IsIeee = record {
  sub_not_neg = λ x y h. ground arith;
  add_not_neg = λ x y h k. ground arith;
  round_not_neg = round_fixed_not_neg;
  lt_irrefl = λ x. ground arith;
  sub_self_not_gt = λ x n k. ground arith;
}
