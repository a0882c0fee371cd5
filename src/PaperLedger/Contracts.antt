-- ===== src/PaperLedger/Contracts.antt =====
-- src/quantpilot_core/paper_ledger/contracts.py, and the helpers on an account that
-- a_share_constraints.py and ledger.py both carry: order shape, rejection, position update.
use quant_pilot_ai_next.Base.{String, Option, none, List, [], ◌++◌, if◌then◌else◌, only_if}
use quant_pilot_ai_next.Int.{ℤ, pos, leb_ℤ, eq_ℤ}
use quant_pilot_ai_next.Text.{is_blank}
use quant_pilot_ai_next.Dict.{Dict, insert, remove, get_or}
use quant_pilot_ai_next.Float.{Float, lt, le, zero_float}

pub data PaperOrderSide : Type 0 where
  buy sell : PaperOrderSide

pub data PaperOrderStatus : Type 0 where
  accepted rejected : PaperOrderStatus

pub data PaperLedgerStatus : Type 0 where
  ready rejected no_gate_pass insufficient_cash invalid_order : PaperLedgerStatus

pub record PaperLedgerAccount (W : Type 0) : Type 0 where
  pub cash : W
  pub positions : Dict ℤ

pub record PaperLedgerOrderIntent (W : Type 0) : Type 0 where
  pub symbol : String
  pub side : PaperOrderSide
  pub quantity : ℤ
  pub limit_price : W

pub record PaperLedgerResult (W : Type 0) : Type 0 where
  pub status : PaperLedgerStatus
  pub order_status : PaperOrderStatus
  pub symbol : String
  pub side : PaperOrderSide
  pub requested_quantity : ℤ
  pub filled_quantity : ℤ
  pub fill_price : Option W
  pub cash_before : W
  pub cash_after : W
  pub position_before : ℤ
  pub position_after : ℤ
  pub account_after : PaperLedgerAccount W
  pub reasons : List String
  pub warnings : List String
  pub suggested_next_action : String

module _ {W : Type 0} ⦃F : Float W⦄ where
  -- `_validate_order_shape`, the same text as `_validate_account_and_order` of ledger.py
  unfoldable pub validate_order_shape :
      PaperLedgerAccount W → PaperLedgerOrderIntent W → List String
  unfolding is_blank
  validate_order_shape account intent =
      only_if (lt account.cash zero_float) "cash_negative"
      ++ (only_if (is_blank intent.symbol) "symbol_missing"
          ++ (only_if (leb_ℤ intent.quantity (pos 0)) "quantity_must_be_positive"
              ++ only_if (le intent.limit_price zero_float) "limit_price_must_be_positive"))

  -- `_rejected_paper_result`, the same text as `_rejected_result` of ledger.py
  unfoldable pub rejected_paper_result :
      PaperLedgerStatus
      → PaperLedgerAccount W
      → PaperLedgerOrderIntent W
      → ℤ
      → List String
      → String
      → PaperLedgerResult W
  rejected_paper_result status account intent position_before reasons suggested_next_action =
      record {
        status = status;
        order_status = PaperOrderStatus.rejected;
        symbol = intent.symbol;
        side = intent.side;
        requested_quantity = intent.quantity;
        filled_quantity = pos 0;
        fill_price = none;
        cash_before = account.cash;
        cash_after = account.cash;
        position_before = position_before;
        position_after = position_before;
        account_after = record { cash = account.cash; positions = account.positions };
        reasons = reasons;
        warnings = [];
        suggested_next_action = suggested_next_action;
      }

  -- `_account_with_position`: `if position` holds of every quantity but zero.
  unfoldable pub account_with_position :
      PaperLedgerAccount W → String → W → ℤ → PaperLedgerAccount W
  account_with_position account symbol cash position = record {
    cash = cash;
    positions =
        if eq_ℤ position (pos 0)
        then remove symbol account.positions
        else insert symbol position account.positions;
  }

  -- `account.positions.get(symbol, 0)`
  unfoldable pub position_of : PaperLedgerAccount W → String → ℤ
  position_of account symbol = get_or (pos 0) symbol account.positions
