-- ===== src/Orders/Service.antt =====
-- services/orders/service.go: submitting, rejecting, cancelling and placing an order, creating an
-- execution and applying it. The session is that of the *db.Queries the source passes.
use mogtrade_engine.Base.{⊤, Option, none, some, String, if◌then◌else◌, string_eq, ◌is◌}
use mogtrade_engine.Decimal.{Decimals, NullDecimal}
use mogtrade_engine.Database.Enums.{
  OrderSide, OrderType, type_limit, OrderStatus, submitted, rejected, cancelled, execution_filled,
}
use mogtrade_engine.Database.Rows.{Order, Execution, Wallet}
use mogtrade_engine.Database.Session.{
  Error, no_rows, unique_violation, database_failed, nil_dereference, order_not_found,
  duplicate_order, execution_not_found, duplicate_execution, invalid_order_transition,
  unsupported_order_type, err, Query, attempt, pure, fail, or_fail, on_error, attempted, ◌>>=◌,
  ◌>>◌,
}
use mogtrade_engine.Database.Orders as Orders
use mogtrade_engine.Database.Orders.{
  find_owned_order, find_order_by_id, mark_order_submitted, mark_order_rejected,
  mark_order_cancelled, fill_order_by_id,
}
use mogtrade_engine.Database.Executions as Executions
use mogtrade_engine.Database.Executions.{
  execution_exists, find_execution_by_id, update_execution_status, update_execution_orders_statuses,
}
use mogtrade_engine.Database.Wallets.{find_wallet_from_wallet_transaction_src}
use mogtrade_engine.Orders.Status.{is_order_status_transition_valid}

pub record PlaceOrderParams (A : Type 0) : Type 0 where
  pub tracing_id : String
  pub order_id : String
  pub idempotency_token : String
  pub placed_by : String
  pub symbol : String
  pub currency : String
  pub side : OrderSide
  pub order_type : OrderType
  pub quantity : A
  pub exchange_rate_snapshot : A
  pub limit_price : NullDecimal A
  pub stop_price : NullDecimal A

pub record CreateExecutionParams (A : Type 0) : Type 0 where
  pub id : String
  pub bid : String
  pub ask : String
  pub user : String
  pub tracing_id : String
  pub matched_quantity : A
  pub bid_exchange_rate : A
  pub ask_exchange_rate : A

-- errors.Is(err, sql.ErrNoRows)
abbrev pub or_order_not_found : Error → Error
or_order_not_found no_rows = order_not_found
or_order_not_found e = e

abbrev pub or_execution_not_found : Error → Error
or_execution_not_found no_rows = execution_not_found
or_execution_not_found e = e

abbrev pub or_duplicate_order : Error → Error
or_duplicate_order (unique_violation index) =
    if index is "orders_user_id_client_order_id_uidx"
    then duplicate_order
    else unique_violation index
or_duplicate_order e = e

module _ {A : Type 0} where
  -- The message of the error reads the status of the order, which may be null.
  abbrev pub check_transition : Order A → OrderStatus → Query A ⊤
  check_transition o target =
      if is_order_status_transition_valid o.status target then pure tt else elim o.status [
        | none ↦ fail nil_dereference
        | some status ↦ fail (invalid_order_transition status target)
      ]

  unfoldable pub submit_order : String → String → Query A ⊤
  submit_order owner_id order_id = do
    order ← on_error or_order_not_found (find_owned_order (some owner_id) order_id)
    check_transition order submitted
    mark_order_submitted (some owner_id) order_id

  unfoldable pub reject_order : String → String → Query A ⊤
  reject_order owner_id order_id = do
    order ← on_error or_order_not_found (find_owned_order (some owner_id) order_id)
    check_transition order rejected
    mark_order_rejected (some owner_id) order_id

  -- The order as it was before it was cancelled.
  unfoldable pub cancel_order : String → String → Query A (Order A)
  cancel_order owner_id order_id = do
    order ← on_error or_order_not_found (find_owned_order (some owner_id) order_id)
    check_transition order cancelled
    mark_order_cancelled (some owner_id) order_id
    pure order

  abbrev pub order_params : PlaceOrderParams A → Orders.PlaceOrderParams A
  order_params p = record {
    id = p.order_id;
    user_id = some p.placed_by;
    symbol = p.symbol;
    side = p.side;
    order_type = p.order_type;
    quantity = p.quantity;
    limit_price = p.limit_price;
    stop_price = p.stop_price;
    client_order_id = some p.idempotency_token;
    tracing_id = p.tracing_id;
    currency = p.currency;
    exchange_rate = p.exchange_rate_snapshot;
  }

  unfoldable pub place_order : PlaceOrderParams A → Query A ⊤
  place_order p =
      if p.order_type is type_limit
      then on_error or_duplicate_order (Orders.place_order (order_params p))
      else fail unsupported_order_type

  -- A statement that the server refuses.
  unfoldable pub refused : {X : Type 0} → Query A X
  refused s =
      let (runs, t) = attempt s in
      (err database_failed, if runs then record t { aborted = t.in_transaction } else t)

module _ (d : Decimals) where
  open d use {Amount, mul}

  abbrev pub execution_params :
      CreateExecutionParams Amount
      → Order Amount
      → OrderStatus
      → Wallet Amount
      → Order Amount
      → OrderStatus
      → Executions.CreateExecutionParams Amount
  execution_params p bid bid_status wallet ask ask_status = record {
    id = p.id;
    match_quantity = p.matched_quantity;
    symbol = bid.symbol;
    bid_price = bid.limit_price.decimal;
    bid_status = bid_status;
    bid_currency = bid.currency;
    bid_exchange_rate_snapshot = p.bid_exchange_rate;
    exec_value = mul (mul p.bid_exchange_rate bid.limit_price.decimal) p.matched_quantity;
    ask_price = ask.limit_price.decimal;
    ask_status = ask_status;
    ask_currency = ask.currency;
    ask_exchange_rate_snapshot = p.ask_exchange_rate;
    tracing_id = p.tracing_id;
    user = some p.user;
    bid = some p.bid;
    ask = some p.ask;
    ask_wallet = ask.ask_wallet;
    bid_wallet = some wallet.id;
    wallets_type = wallet.wallet_type;
  }

  -- The insert of an execution. When the wallet was not found, its type is the empty text, which
  -- the column refuses.
  abbrev pub insert_execution :
      CreateExecutionParams Amount
      → Order Amount
      → OrderStatus
      → Option (Wallet Amount)
      → Order Amount
      → OrderStatus
      → Query Amount (Execution Amount)
  insert_execution p bid bid_status none ask ask_status = refused
  insert_execution p bid bid_status (some wallet) ask ask_status =
      Executions.create_execution (execution_params p bid bid_status wallet ask ask_status)

  -- The error of the insert is dropped; `none` is then the zero Execution.
  unfoldable pub create_execution :
      CreateExecutionParams Amount → Query Amount (Option (Execution Amount))
  create_execution p = do
    exists ← execution_exists (some p.ask) (some p.bid)
    if exists then fail duplicate_execution else pure tt
    bid ← on_error or_order_not_found (find_order_by_id p.bid)
    transaction ← or_fail bid.bid_transaction nil_dereference
    wallet ← attempted (find_wallet_from_wallet_transaction_src transaction)
    ask ← on_error or_order_not_found (find_order_by_id p.ask)
    bid_status ← or_fail bid.status nil_dereference
    ask_status ← or_fail ask.status nil_dereference
    attempted (insert_execution p bid bid_status wallet ask ask_status)

  unfoldable pub apply_execution_fill : String → Query Amount ⊤
  apply_execution_fill exec_id = do
    exec ← on_error or_execution_not_found (find_execution_by_id exec_id)
    ask ← or_fail exec.ask nil_dereference
    fill_order_by_id d exec.match_quantity ask
    bid ← or_fail exec.bid nil_dereference
    fill_order_by_id d exec.match_quantity bid
    update_execution_status execution_filled exec_id
    update_execution_orders_statuses exec_id
