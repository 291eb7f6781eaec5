-- ===== src/Orders/Risk.antt =====
-- services/orders/risk-engine.go: the checks of an order before it is placed. A side or a type
-- that Scan reads from a text is that text: Scan refuses none.
pub mod Refusal
pub mod Limits
use mogtrade_engine.Base.{
  append_text, ◌≡◌, ◌⊎◌, refl, Bool, true, false, not, ◌&&◌, Option, none, some, inl, inr, String,
  List, [], ◌∷◌, ◌++◌, All, arith, Bool-cases, if◌then◌else◌, string_eq, ◌is◌,
}
use mogtrade_engine.Base.Dict.{Dict, lookup}
use mogtrade_engine.Decimal.{Decimals, NullDecimal}
use mogtrade_engine.Database.Enums.{side_sell, side_buy, type_limit, type_market}

pub record RiskCheckResult : Type 0 where
  pub approved : Bool
  pub reason : String

pub record OrderContext (A : Type 0) : Type 0 where
  pub symbol : String
  pub side : String
  pub order_type : String
  pub quantity : A
  pub limit_price : NullDecimal A
  pub stop_price : NullDecimal A
  pub account_balance : A
  pub current_ask : A
  pub current_position : A

abbrev pub RiskCheck : Type 0 → Type 0
RiskCheck A = OrderContext A → RiskCheckResult

abbrev pub accepted_risk_check : RiskCheckResult
accepted_risk_check = record { approved = true; reason = "" }

abbrev pub rejected_for : String → RiskCheckResult
rejected_for reason = record { approved = false; reason = reason }

-- ValidateOrder
unfoldable pub validate_order : {A : Type 0} → OrderContext A → List (RiskCheck A) → RiskCheckResult
validate_order o [] = accepted_risk_check
validate_order o (check ∷ checks) =
    let rest = validate_order o checks in
    let result = check o in if result.approved then rest else result

module _ (d : Decimals) where
  open d use {Amount, zero_amount, add, mul, neg, abs, greater_than}

  -- velocityCheck, whose notional is zero for a stop order
  abbrev pub estimated_notional : OrderContext Amount → Amount
  estimated_notional o =
      if o.order_type is type_limit
      then mul o.quantity o.limit_price.decimal
      else if o.order_type is type_market
      then mul o.quantity o.current_ask
      else zero_amount

  unfoldable pub with_velocity_checking : Amount → Amount → RiskCheck Amount
  with_velocity_checking max_quantity max_notional o =
      if greater_than o.quantity max_quantity
      then rejected_for "order quantity exceeds maximum allowed limit"
      else if greater_than (estimated_notional o) max_notional
      then rejected_for "order notional exceeds maximum threshold"
      else accepted_risk_check

  -- marginCheck
  abbrev pub required_capital : OrderContext Amount → Amount
  required_capital o =
      if (o.order_type is type_limit) && o.limit_price.valid
      then mul o.quantity o.limit_price.decimal
      else if o.order_type is type_market
      then mul o.quantity o.current_ask
      else zero_amount

  unfoldable pub with_margin_checking : RiskCheck Amount
  with_margin_checking o =
      if o.side is side_buy
      then (if greater_than (required_capital o) o.account_balance
          then rejected_for "insufficient funds"
          else accepted_risk_check)
      else accepted_risk_check

  -- positionCheck
  abbrev pub projected_position : OrderContext Amount → Amount
  projected_position o =
      add o.current_position (if o.side is side_sell then neg o.quantity else o.quantity)

  abbrev pub max_allowed : Dict String Amount → Amount → String → Amount
  max_allowed max_positions new_default symbol = elim (lookup symbol max_positions) [
    | none ↦ new_default
    | some allowed ↦ allowed
  ]

  unfoldable pub with_position_checking : Dict String Amount → Amount → RiskCheck Amount
  with_position_checking max_positions new_default o =
      if greater_than (abs (projected_position o)) (max_allowed max_positions new_default o.symbol)
      then rejected_for
          (append_text "order would exceed maximum allowed position limit for " o.symbol)
      else accepted_risk_check
