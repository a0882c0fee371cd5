-- ===== src/PaperTrading/Normalized.antt =====
-- What the normalization of src/quantpilot_core/order_intent/controller.py makes of shares and intents.
use quant_pilot_ai_next.Text.{contains}
use quant_pilot_ai_next.PaperTrading.Intents.{side_of, shares_or_zero, is_off_lot, quantity_reasons}
use quant_pilot_ai_next.PaperTrading.Controller.{
  normalize_shares, whole_lots, shares_for, normalized, normalize_intent, positive_or_none,
  normalize_proposal, normalize_intents, OrderIntentProposal,
}
use mathlib.Core.Path.{subst}
use native.Mathlib.Nat.{mul-div_cancel, mul-mod_left}
use quant_pilot_ai_next.Base.{
  ◌≡◌, refl, ap, false, [], ◌∷◌, arith, none, some, zero, suc, inl, inr, ◌*◌, ◌/◌, ◌+◌, ◌%◌, ℕ,
  Bool-cases, Option, returned, WhenReturned, List, WhenReturned-bind, ◌⊎◌,
}
use quant_pilot_ai_next.Int.{ℤ, pos, ◌+ℤ◌, ◌≤ℤ◌, mod_ℤ, max_ℤ, negsuc, ltb_ℤ}
use quant_pilot_ai_next.PaperTrading.Contracts.{
  OrderIntentSide, buy, sell, hold, OrderIntent, side_value,
}

lots_within : (n l : ℕ) → (n / suc l * suc l) + n % suc l ≡ n
lots_within n l = omega arith

lots_whole : (n l : ℕ) → n / suc l * suc l % suc l ≡ 0
lots_whole n l = mul-mod_left (n / suc l) (suc l)

pub normalize_shares_bounds :
    (lot_size : ℤ) (shares : ℤ)
    → pos 1 ≤ℤ lot_size
    → let given = shares_or_zero (normalize_shares lot_size (some shares)) in
      (is_off_lot given lot_size ≡ false)
      × (given ≤ℤ max_ℤ (pos 0) shares)
      × (pos 0 ≤ℤ given)
      × (shares +ℤ pos 1 ≤ℤ given +ℤ lot_size)
      × ((pos 1 ≤ℤ shares) ⊎ (normalize_shares lot_size (some shares) ≡ none))
unfolding normalize_shares mod_ℤ ◌+ℤ◌
normalize_shares_bounds (negsuc l) shares h = absurd (ground arith)
normalize_shares_bounds (pos zero) shares h = absurd (ground arith)
normalize_shares_bounds (pos (suc l)) (negsuc n) h =
    (ground arith, ground arith, ground arith, ground arith, inr (ground arith))
normalize_shares_bounds (pos (suc l)) (pos n) h = (
  ground (arith, lots_whole n l),
  ground (arith, lots_within n l),
  ground arith,
  ground (arith, lots_within n l),
  ground arith,
)

side_of-value : (side : OrderIntentSide) → side_of (side_value side) ≡ some side
unfolding side_of
side_of-value buy = refl
side_of-value sell = refl
side_of-value hold = refl

-- whole lots are kept
whole_lots_again :
    (l n : ℕ)
    → whole_lots (whole_lots (pos n) (pos (suc l))) (pos (suc l)) ≡ whole_lots (pos n) (pos (suc l))
whole_lots_again l n = ap (λ k. pos (k * suc l)) (mul-div_cancel (n / suc l) (ground arith))

normalize_shares_again :
    (lot_size : ℤ) (shares : Option ℤ)
    → pos 1 ≤ℤ lot_size
    → normalize_shares lot_size (normalize_shares lot_size shares)
      ≡ normalize_shares lot_size shares
unfolding normalize_shares
normalize_shares_again lot_size none h = refl
normalize_shares_again (negsuc l) (some shares) h = absurd (ground arith)
normalize_shares_again (pos zero) (some shares) h = absurd (ground arith)
normalize_shares_again (pos (suc l)) (some (negsuc n)) h = ground arith
normalize_shares_again (pos (suc l)) (some (pos n)) h = ground (arith, whole_lots_again l n)

no_shares : (lot_size : ℤ) → normalize_shares lot_size none ≡ none
unfolding normalize_shares
no_shares lot_size = refl

held :
    (lot_size : ℤ) (given : Option ℤ)
    → normalize_shares lot_size given ≡ given
    → positive_or_none (normalize_shares lot_size (positive_or_none given)) ≡ positive_or_none given
held lot_size none e = rw e refl
held lot_size (some given) e = elim (Bool-cases (ltb_ℤ (pos 0) given)) [
  | inl some_given ↦ rw some_given (rw e (rw some_given refl))
  | inr none_given ↦ rw none_given (rw (no_shares lot_size) refl)
]

shares_for-again :
    (side : OrderIntentSide) (lot_size : ℤ) (shares : Option ℤ)
    → pos 1 ≤ℤ lot_size
    → let given = shares_for side (normalize_shares lot_size shares) in
      shares_for side (normalize_shares lot_size given) ≡ given
unfolding shares_for
shares_for-again buy lot_size shares h = normalize_shares_again lot_size shares h
shares_for-again sell lot_size shares h = normalize_shares_again lot_size shares h
shares_for-again hold lot_size shares h =
    held lot_size (normalize_shares lot_size shares) (normalize_shares_again lot_size shares h)

module _ {W : Type 0} (lot_size : ℤ) (positive : pos 1 ≤ℤ lot_size) where
  normalized-again :
      (intent : OrderIntent W) (side : Option OrderIntentSide)
      → WhenReturned
          (λ j. normalize_intent lot_size j ≡ returned j)
          (normalized lot_size intent side)
  unfolding normalized normalize_intent
  normalized-again intent none = tt
  normalized-again intent (some side) = rw (side_of-value side) (
      ap (λ shares. returned (record intent { side = side_value side; target_shares = shares }))
        (shares_for-again side lot_size intent.target_shares positive))

  normalize_intents-again :
      (intents : List (OrderIntent W))
      → WhenReturned
          (λ js. normalize_intents lot_size js ≡ returned js)
          (normalize_intents lot_size intents)
  unfolding normalize_intents normalize_intent
  normalize_intents-again [] = refl
  normalize_intents-again (intent ∷ intents) =
      WhenReturned-bind (λ j. normalize_intent lot_size j ≡ returned j) _
        (normalize_intent lot_size intent) _ (normalized-again intent (side_of intent.side))
        (λ j same.
          WhenReturned-bind (λ js. normalize_intents lot_size js ≡ returned js) _
            (normalize_intents lot_size intents) _ (normalize_intents-again intents)
            (λ js all_same. rw (same, all_same) refl))

  -- For a positive lot size, a proposal that is normalized stays as it is when it is normalized again.
  pub normalize_proposal_again :
      (proposal normal : OrderIntentProposal W)
      → normalize_proposal lot_size proposal ≡ returned normal
      → normalize_proposal lot_size normal ≡ returned normal
  unfolding normalize_proposal
  normalize_proposal_again proposal normal e =
      subst (WhenReturned (λ q. normalize_proposal lot_size q ≡ returned q)) e (
        WhenReturned-bind (λ js. normalize_intents lot_size js ≡ returned js) _
          (normalize_intents lot_size proposal.intents) _ (normalize_intents-again proposal.intents)
          (λ js same. rw same refl))

on_lot-reasons :
    (given : Option ℤ) (lot_size : ℤ)
    → is_off_lot (shares_or_zero given) lot_size ≡ false
    → contains "quantity_must_be_100_share_lot" (quantity_reasons given lot_size) ≡ false
unfolding quantity_reasons
on_lot-reasons none lot_size h = refl
on_lot-reasons (some given) lot_size h = ground (arith, h)

no_shares_reasons :
    (lot_size : ℤ)
    → contains "quantity_must_be_100_share_lot" (quantity_reasons none lot_size) ≡ false
unfolding quantity_reasons
no_shares_reasons lot_size = refl

-- An intent whose shares are normalized for a positive lot size is not refused by a simulator of the
-- same lot size for being no whole number of lots, whatever shares it asked for.
pub quantity_reasons-normalize_shares :
    (lot_size : ℤ) (shares : Option ℤ)
    → pos 1 ≤ℤ lot_size
    → contains "quantity_must_be_100_share_lot"
        (quantity_reasons (normalize_shares lot_size shares) lot_size)
      ≡ false
unfolding normalize_shares
quantity_reasons-normalize_shares lot_size none h = no_shares_reasons lot_size
quantity_reasons-normalize_shares lot_size (some shares) h =
    on_lot-reasons (normalize_shares lot_size (some shares)) lot_size
      (normalize_shares_bounds lot_size shares h).0
