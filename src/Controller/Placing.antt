-- ===== src/Controller/Placing.antt =====
-- app/controller/orders.go, handlePlaceOrder: the validation of the payload
-- (app/payloads/http/order.go) and the transaction that places an order. The currency converter's
-- answer, the system wallets and the generated ids are parameters.
use mogtrade_engine.Base.{
  ⊤, ◌≡◌, ◌↔◌, ◌⊎◌, Bool, false, not, ◌&&◌, ◌||◌, Option, some, String, List, [], ◌∷◌, ◌++◌, arith,
  if◌then◌else◌, string_eq, ◌is◌,
}
use mogtrade_engine.Decimal.{Decimals, NullDecimal}
use mogtrade_engine.Database.Enums.{
  OrderSide, OrderType, WalletType, side_buy, side_sell, type_limit, type_stop, type_stop_limit,
  transaction_completed,
}
use mogtrade_engine.Database.Rows.{WalletSnapshot}
use mogtrade_engine.Database.Session.{Query, Result, order_rejected, pure, fail, ◌>>=◌, ◌>>◌}
use mogtrade_engine.Database.Orders.{attach_bid_transaction_to_order, attach_ask_wallet_to_order}
use mogtrade_engine.Orders.Service.{PlaceOrderParams, place_order, submit_order, reject_order}
use mogtrade_engine.Orders.Risk.{OrderContext, RiskCheckResult, validate_order}
use mogtrade_engine.Billing.Service.{
  RecordWalletTransactionParams, get_current_wallet_snapshot, record_wallet_transaction,
  update_wallet_transaction_status,
}

pub record PlaceOrderPayload (A : Type 0) : Type 0 where
  pub symbol : String
  pub currency : String
  pub side : OrderSide
  pub order_type : OrderType
  pub limit_price : NullDecimal A
  pub stop_price : NullDecimal A
  pub idempotency_token : String
  pub quantity : A
  pub wallet_type : WalletType

-- The ids that the handler makes, and whose request it is.
pub record RequestIds : Type 0 where
  pub user : String
  pub order_id : String
  pub tracing_id : String
  pub transaction_id : String

module _ (d : Decimals) where
  open d use {Amount, zero_amount, mul, greater_than}

  -- The test for a price that is missing or not positive.
  abbrev pub no_price : NullDecimal Amount → Bool
  no_price p = not p.valid || not (greater_than p.decimal zero_amount)

  abbrev price_errors : Bool → NullDecimal Amount → String → List String
  price_errors needed p message = if needed && no_price p then message ∷ [] else []

  -- PlaceOrderPayload.Validate; Scan takes every text for a side or a type.
  unfoldable pub validate : PlaceOrderPayload Amount → List String
  validate p =
      if p.idempotency_token is ""
      then "idempotency token must be provided" ∷ []
      else price_errors ((p.order_type is type_limit) || (p.order_type is type_stop_limit))
          p.limit_price "Limit price required and must be positive"
        ++ price_errors ((p.order_type is type_stop) || (p.order_type is type_stop_limit))
            p.stop_price "Stop price required nad must be positive"

  -- A payload passes exactly when it has a token, a positive limit price if its type is limit or
  -- stop_limit, and a positive stop price if its type is stop or stop_limit. Its quantity, its
  -- side and any other type are not looked at.
  pub validate_iff :
      (p : PlaceOrderPayload Amount)
      → (validate p ≡ []) ↔ (
          ((p.idempotency_token is "") ≡ false)
          × ((((p.order_type is type_limit) || (p.order_type is type_stop_limit)) ≡ false)
              ⊎ (no_price p.limit_price ≡ false))
          × ((((p.order_type is type_stop) || (p.order_type is type_stop_limit)) ≡ false)
              ⊎ (no_price p.stop_price ≡ false)))
  unfolding validate
  validate_iff p = ground arith

  abbrev pub order_of : RequestIds → PlaceOrderPayload Amount → Amount → PlaceOrderParams Amount
  order_of ids p rate = record {
    tracing_id = ids.tracing_id;
    order_id = ids.order_id;
    idempotency_token = p.idempotency_token;
    placed_by = ids.user;
    symbol = p.symbol;
    currency = p.currency;
    side = p.side;
    order_type = p.order_type;
    quantity = p.quantity;
    exchange_rate_snapshot = rate;
    limit_price = p.limit_price;
    stop_price = p.stop_price;
  }

  abbrev pub context_of : PlaceOrderPayload Amount → WalletSnapshot Amount → OrderContext Amount
  context_of p wallet = record {
    symbol = p.symbol;
    side = p.side;
    order_type = p.order_type;
    quantity = p.quantity;
    limit_price = p.limit_price;
    stop_price = p.stop_price;
    account_balance = wallet.current_balance;
    current_ask = zero_amount;
    current_position = zero_amount;
  }

  -- The request has no extra data: json.Marshal of a nil map.
  abbrev pub no_extra : ⊤ → Option String
  no_extra x = some "null"

  abbrev pub charge_of :
      RequestIds
      → PlaceOrderPayload Amount
      → Amount
      → String
      → String
      → RecordWalletTransactionParams Amount ⊤
  charge_of ids p rate wallet system = record {
    id = ids.transaction_id;
    src = some wallet;
    dest = some system;
    intent = "order placed";
    extra_data = tt;
    idempotency_token = p.idempotency_token;
    done_by = ids.user;
    tracing_id = ids.tracing_id;
    currency = p.currency;
    exchange_rate = rate;
    value = mul (mul p.quantity p.limit_price.decimal) rate;
  }

  -- The order is submitted, or refused with an error; the source passes no checks.
  abbrev pub decide : RequestIds → RiskCheckResult → Query Amount ⊤
  decide ids result =
      if result.approved
      then submit_order ids.user ids.order_id
      else (reject_order ids.user ids.order_id >> fail (order_rejected result.reason))

  unfoldable pub charge :
      RequestIds → PlaceOrderPayload Amount → Amount → String → String → Query Amount ⊤
  charge ids p rate wallet system =
      if p.side is side_buy
      then (record_wallet_transaction d no_extra (charge_of ids p rate wallet system)
          >> (attach_bid_transaction_to_order (some ids.transaction_id) ids.order_id
              >> update_wallet_transaction_status d ids.transaction_id transaction_completed))
      else if p.side is side_sell
      then attach_ask_wallet_to_order (some wallet) ids.order_id
      else pure tt

  -- The handler of the transaction.
  unfoldable pub place :
      (String → Result Amount)
      → (WalletType → String)
      → RequestIds
      → PlaceOrderPayload Amount
      → Query Amount ⊤
  place rates system_wallet ids p = do
    wallet ← get_current_wallet_snapshot d p.wallet_type ids.user
    rate ← λ s. (rates p.currency, s)
    place_order (order_of ids p rate)
    decide ids (validate_order (context_of p wallet) [])
    charge ids p rate wallet.wallet_id (system_wallet wallet.wallet_type)
