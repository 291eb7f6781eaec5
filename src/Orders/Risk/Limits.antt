-- ===== src/Orders/Risk/Limits.antt =====
-- What the three checks of services/orders/risk-engine.go ask of an order together.
use mogtrade_engine.Base.{
  ◌≡◌, ◌⊎◌, ◌↔◌, refl, true, false, inl, inr, String, [], ◌∷◌, Option, none, some, ◌&&◌, arith,
  Bool-cases, string_eq, ◌is◌,
}
use mogtrade_engine.Base.Dict.{Dict, lookup}
use mogtrade_engine.Decimal.{Decimals}
use mogtrade_engine.Database.Enums.{side_buy, side_sell, type_limit, type_market}
use mogtrade_engine.Orders.Risk.{
  OrderContext, validate_order, estimated_notional, required_capital, projected_position,
  max_allowed, with_velocity_checking, with_margin_checking, with_position_checking,
}

module _ (d : Decimals) where
  open d use {Amount, zero_amount, add, mul, neg, abs, greater_than}

  -- The notional of an order: its quantity at its limit price or at the ask, by its type.
  pub data IsNotional (o : OrderContext Amount) : Amount → Type 0 where
    at_limit :
        (o.order_type is type_limit) ≡ true → IsNotional o (mul o.quantity o.limit_price.decimal)
    at_market :
        (o.order_type is type_limit) ≡ false
        → (o.order_type is type_market) ≡ true
        → IsNotional o (mul o.quantity o.current_ask)
    unpriced :
        (o.order_type is type_limit) ≡ false
        → (o.order_type is type_market) ≡ false
        → IsNotional o zero_amount

  -- The capital that a buyer needs for it: nothing for a limit order without a limit price.
  pub data IsCapital (o : OrderContext Amount) : Amount → Type 0 where
    for_limit :
        (o.order_type is type_limit) ≡ true
        → o.limit_price.valid ≡ true
        → IsCapital o (mul o.quantity o.limit_price.decimal)
    for_market :
        ((o.order_type is type_limit) ≡ false) ⊎ (o.limit_price.valid ≡ false)
        → (o.order_type is type_market) ≡ true
        → IsCapital o (mul o.quantity o.current_ask)
    for_nothing :
        ((o.order_type is type_limit) ≡ false) ⊎ (o.limit_price.valid ≡ false)
        → (o.order_type is type_market) ≡ false
        → IsCapital o zero_amount

  -- The position once the order is filled.
  pub data IsPosition (o : OrderContext Amount) : Amount → Type 0 where
    sold : (o.side is side_sell) ≡ true → IsPosition o (add o.current_position (neg o.quantity))
    bought : (o.side is side_sell) ≡ false → IsPosition o (add o.current_position o.quantity)

  -- The largest position that a symbol may have.
  pub data IsAllowed (new_default : Amount) (max_positions : Dict String Amount) (symbol : String)
      : Amount → Type 0 where
    own :
        (a : Amount)
        → lookup symbol max_positions ≡ some a
        → IsAllowed new_default max_positions symbol a
    default :
        lookup symbol max_positions ≡ none → IsAllowed new_default max_positions symbol new_default

  -- The order is within every limit.
  pub record IsWithin (max_quantity max_notional new_default : Amount)
      (max_positions : Dict String Amount) (o : OrderContext Amount) : Type 0 where
    pub notional : Amount
    pub capital : Amount
    pub position : Amount
    pub allowed : Amount
    pub of_notional : IsNotional o notional
    pub of_capital : IsCapital o capital
    pub of_position : IsPosition o position
    pub of_allowed : IsAllowed new_default max_positions o.symbol allowed
    pub small : greater_than o.quantity max_quantity ≡ false
    pub cheap : greater_than notional max_notional ≡ false
    pub funded : ((o.side is side_buy) ≡ false) ⊎ (greater_than capital o.account_balance ≡ false)
    pub placeable : greater_than (abs position) allowed ≡ false

  module _ (o : OrderContext Amount) where
    estimated_notional-IsNotional : IsNotional o (estimated_notional d o)
    estimated_notional-IsNotional = elim (Bool-cases (o.order_type is type_limit)) [
      | inl limit ↦ rw limit (at_limit limit)
      | inr no_limit ↦ elim (Bool-cases (o.order_type is type_market)) [
        | inl market ↦ rw (no_limit, market) (at_market no_limit market)
        | inr neither ↦ rw (no_limit, neither) (unpriced no_limit neither)
      ]
    ]

    notional_only : (a : Amount) → IsNotional o a → a ≡ estimated_notional d o
    notional_only a (at_limit limit) = ground arith
    notional_only a (at_market no_limit market) = ground arith
    notional_only a (unpriced no_limit neither) = ground arith

    unlimited-IsCapital :
        ((o.order_type is type_limit) && o.limit_price.valid) ≡ false
        → ((o.order_type is type_limit) ≡ false) ⊎ (o.limit_price.valid ≡ false)
        → IsCapital o (required_capital d o)
    unlimited-IsCapital off why = elim (Bool-cases (o.order_type is type_market)) [
      | inl market ↦ rw (off, market) (for_market why market)
      | inr neither ↦ rw (off, neither) (for_nothing why neither)
    ]

    required_capital-IsCapital : IsCapital o (required_capital d o)
    required_capital-IsCapital = elim (Bool-cases (o.order_type is type_limit)) [
      | inr no_limit ↦ unlimited-IsCapital (rw no_limit refl) (inl no_limit)
      | inl limit ↦ elim (Bool-cases o.limit_price.valid) [
        | inl priced ↦
            let same : required_capital d o ≡ mul o.quantity o.limit_price.decimal = ground arith in
            rw same (for_limit limit priced)
        | inr priceless ↦ unlimited-IsCapital (rw (limit, priceless) refl) (inr priceless)
      ]
    ]

    capital_only : (a : Amount) → IsCapital o a → a ≡ required_capital d o
    capital_only a (for_limit limit priced) = ground arith
    capital_only a (for_market why market) = ground arith
    capital_only a (for_nothing why neither) = ground arith

    projected_position-IsPosition : IsPosition o (projected_position d o)
    projected_position-IsPosition = elim (Bool-cases (o.side is side_sell)) [
      | inl sell ↦ rw (sell, projected_position) (sold sell)
      | inr buy ↦ rw (buy, projected_position) (bought buy)
    ]

    position_only : (a : Amount) → IsPosition o a → a ≡ projected_position d o
    position_only a (sold sell) = ground arith
    position_only a (bought buy) = ground arith

  Option-cases : (x : Option Amount) → (x ≡ none) ⊎ ((a : Amount) × (x ≡ some a))
  Option-cases none = inl refl
  Option-cases (some a) = inr (a, refl)

  max_allowed-IsAllowed :
      (new_default : Amount) (max_positions : Dict String Amount) (symbol : String)
      → IsAllowed new_default max_positions symbol (max_allowed d max_positions new_default symbol)
  max_allowed-IsAllowed new_default max_positions symbol =
      elim (Option-cases (lookup symbol max_positions)) [
        | inl missing ↦ rw (missing, max_allowed) (default missing)
        | inr (a, found) ↦ rw (found, max_allowed) (own a found)
      ]

  allowed_only :
      (new_default : Amount) (max_positions : Dict String Amount) (symbol : String) (a : Amount)
      → IsAllowed new_default max_positions symbol a
      → a ≡ max_allowed d max_positions new_default symbol
  allowed_only new_default max_positions symbol a (own b found) = rw (found, max_allowed) refl
  allowed_only new_default max_positions symbol a (default missing) = rw (missing, max_allowed) refl

  module _ (max_quantity max_notional new_default : Amount) (max_positions : Dict String Amount)
      (o : OrderContext Amount) where
    abbrev ApprovedByAll : Type 0
    ApprovedByAll =
        (validate_order o (
          with_velocity_checking d max_quantity max_notional
          ∷ with_margin_checking d
          ∷ with_position_checking d max_positions new_default
          ∷ [])).approved
        ≡ true

    checks_iff : ApprovedByAll ↔ (
        (greater_than o.quantity max_quantity ≡ false)
        × (greater_than (estimated_notional d o) max_notional ≡ false)
        × (((o.side is side_buy) ≡ false)
            ⊎ (greater_than (required_capital d o) o.account_balance ≡ false))
        × (greater_than
              (abs (projected_position d o))
              (max_allowed d max_positions new_default o.symbol)
            ≡ false))
    unfolding validate_order with_velocity_checking with_margin_checking with_position_checking
    checks_iff = ground arith

    -- The velocity, margin and position checks together approve an order exactly when its quantity
    -- and its notional are within their limits, a buyer's balance covers the capital it needs, and
    -- the position after it is within the limit of its symbol, or the default where the symbol has
    -- none. The notional and the capital are the quantity at the limit price of a limit order, at
    -- the ask for a market order, and else zero; a limit order without a limit price needs no
    -- capital; a sale lowers the position by the quantity, and a purchase raises it.
    pub limits_iff :
        ((validate_order o (
            with_velocity_checking d max_quantity max_notional
            ∷ with_margin_checking d
            ∷ with_position_checking d max_positions new_default
            ∷ [])).approved
          ≡ true)
        ↔ IsWithin max_quantity max_notional new_default max_positions o
    limits_iff = (
      λ approved.
          let h = checks_iff.0 approved in
          record {
            notional = estimated_notional d o;
            capital = required_capital d o;
            position = projected_position d o;
            allowed = max_allowed d max_positions new_default o.symbol;
            of_notional = estimated_notional-IsNotional o;
            of_capital = required_capital-IsCapital o;
            of_position = projected_position-IsPosition o;
            of_allowed = max_allowed-IsAllowed new_default max_positions o.symbol;
            small = h.0;
            cheap = h.1;
            funded = h.2;
            placeable = h.3;
          },
      λ h. checks_iff.1 (
        h.small,
        rw (notional_only o h.notional h.of_notional) at h.cheap,
        rw (capital_only o h.capital h.of_capital) at h.funded,
        rw
            (
              position_only o h.position h.of_position,
              allowed_only new_default max_positions o.symbol h.allowed h.of_allowed,
            )
            at h.placeable,
      ),
    )
