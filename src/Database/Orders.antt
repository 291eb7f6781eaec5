-- ===== src/Database/Orders.antt =====
-- infra/db/orders.sql.go: the queries on the table of orders.
use mogtrade_engine.Base.{
  ◌&&◌, ⊤, ℕ, Bool, false, Option, none, some, String, [], ◌∷◌, ◌++◌, if◌then◌else◌, string_eq,
  ◌is◌,
}
use mogtrade_engine.Decimal.{Decimals, NullDecimal}
use mogtrade_engine.Database.Enums.{
  OrderSide, OrderType, OrderStatus, pending, submitted, partially_filled, filled, cancelled,
  rejected, order_status_eq,
}
use mogtrade_engine.Database.Rows.{Order, Tables}
use mogtrade_engine.Database.Table.{both, first_where, any_where, update_where}
use mogtrade_engine.Database.Session.{Query, read, write, write_unique, one}

pub record PlaceOrderParams (A : Type 0) : Type 0 where
  pub id : String
  pub user_id : Option String
  pub symbol : String
  pub side : OrderSide
  pub order_type : OrderType
  pub quantity : A
  pub limit_price : NullDecimal A
  pub stop_price : NullDecimal A
  pub client_order_id : Option String
  pub tracing_id : String
  pub currency : String
  pub exchange_rate : A

abbrev pub is_submitted : Option OrderStatus → Bool
is_submitted none = false
is_submitted (some status) = status is submitted

module _ {A : Type 0} where
  -- The row that an insert makes, with the defaults of the other columns.
  abbrev pub placed_order : ℕ → PlaceOrderParams A → Order A
  placed_order now p = record {
    user_id = p.user_id;
    symbol = p.symbol;
    side = p.side;
    order_type = p.order_type;
    quantity = p.quantity;
    limit_price = p.limit_price;
    stop_price = p.stop_price;
    id = p.id;
    client_order_id = p.client_order_id;
    status = some pending;
    created_at = now;
    updated_at = now;
    tracing_id = p.tracing_id;
    currency = p.currency;
    exchange_rate = p.exchange_rate;
    bid_transaction = none;
    ask_wallet = none;
  }

  abbrev pub has_id : String → Order A → Bool
  has_id id o = o.id is id

  abbrev pub is_owned : Option String → String → Order A → Bool
  is_owned user_id id o = both o.user_id user_id && (o.id is id)

  abbrev pub has_token : Option String → Option String → Order A → Bool
  has_token user_id token o = both o.user_id user_id && both o.client_order_id token

  -- The unique indexes of the table that a new row would break.
  unfoldable pub order_violates : PlaceOrderParams A → Tables A → Option String
  order_violates p t =
      if any_where (has_id p.id) t.orders
      then some "orders_pkey"
      else if any_where (has_token p.user_id p.client_order_id) t.orders
      then some "orders_user_id_client_order_id_uidx"
      else none

  unfoldable pub place_order : PlaceOrderParams A → Query A ⊤
  place_order p =
      write_unique (order_violates p)
        (λ now t. record t { orders = t.orders ++ placed_order now p ∷ [] })

  unfoldable pub find_order_by_id : String → Query A (Order A)
  find_order_by_id id s = one (read (λ t. first_where (has_id id) t.orders) s)

  unfoldable pub find_owned_order : Option String → String → Query A (Order A)
  find_owned_order user_id id s = one (read (λ t. first_where (is_owned user_id id) t.orders) s)

  unfoldable pub order_exists_by_id : String → Query A Bool
  order_exists_by_id id = read (λ t. any_where (has_id id) t.orders)

  abbrev pub change_orders : (Order A → Bool) → (Order A → Order A) → Query A ⊤
  change_orders p f = write (λ now t. record t {
    orders = update_where p (λ o. record (f o) { updated_at = now }) t.orders;
  })

  unfoldable pub mark_order_cancelled : Option String → String → Query A ⊤
  mark_order_cancelled user_id id =
      change_orders (is_owned user_id id) (λ o. record o { status = some cancelled })

  unfoldable pub mark_order_rejected : Option String → String → Query A ⊤
  mark_order_rejected user_id id =
      change_orders (is_owned user_id id) (λ o. record o { status = some rejected })

  unfoldable pub mark_order_submitted : Option String → String → Query A ⊤
  mark_order_submitted user_id id =
      change_orders (is_owned user_id id) (λ o. record o { status = some submitted })

  unfoldable pub attach_ask_wallet_to_order : Option String → String → Query A ⊤
  attach_ask_wallet_to_order wallet id =
      change_orders (has_id id) (λ o. record o { ask_wallet = wallet })

  unfoldable pub attach_bid_transaction_to_order : Option String → String → Query A ⊤
  attach_bid_transaction_to_order transaction id =
      change_orders (has_id id) (λ o. record o { bid_transaction = transaction })

module _ (d : Decimals) where
  open d use {Amount, zero_amount, sub, less_than}

  -- The row of a submitted order once `quantity` of it is filled.
  unfoldable pub filled_order : Amount → Order Amount → Order Amount
  filled_order quantity o =
      let left = sub o.quantity quantity in
      record o {
        quantity = if less_than left zero_amount then zero_amount else left;
        status =
            if less_than zero_amount left
            then (if less_than left o.quantity then some partially_filled else o.status)
            else some filled;
      }

  abbrev pub can_fill : String → Order Amount → Bool
  can_fill id o = has_id id o && is_submitted o.status

  unfoldable pub fill_order_by_id : Amount → String → Query Amount ⊤
  fill_order_by_id quantity id = change_orders (can_fill id) (filled_order quantity)
