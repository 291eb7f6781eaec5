-- ===== src/Database/Listing.antt =====
-- infra/db/orders.sql.go: the queries that read orders and executions in pages. The collation of
-- the ids is a parameter.
use mogtrade_engine.Base.{
  ◌≤◌, length, ◌≡◌, ◌≢◌, ℕ, Bool, false, Option, none, some, String, List, [], ◌∷◌, map, All, ◌is◌,
  contains, arith,
}
use mogtrade_engine.Base.Int.{ℤ, pos, negsuc}
use mogtrade_engine.Database.Enums.{
  OrderStatus, pending, submitted, partially_filled, order_status_eq, execution_pending,
  execution_status_eq, WalletType,
}
use mogtrade_engine.Database.Rows.{Order, Wallet, Execution, Tables}
use mogtrade_engine.Database.TextOrder.{TextOrder}
use mogtrade_engine.Database.Table.{where_holds}
use mogtrade_engine.Database.Choosing.{length-where, Distinct, Distinct-where}
use mogtrade_engine.Database.Paging.{select_page}
use mogtrade_engine.Database.Session.{
  attempt-tables, Session, Query, err, database_failed, attempt, read,
}
use mogtrade_engine.Database.Session.Rules.{Holds, failed}
use mogtrade_engine.Database.Wallets.{source_of}

-- An order with the type of the wallet that pays for it.
pub record LookupOpenOrdersRow (A : Type 0) : Type 0 where
  pub order : Order A
  pub wallet_type : WalletType

abbrev pub is_open : Option OrderStatus → Bool
is_open none = false
is_open (some status) = contains (pending ∷ submitted ∷ partially_filled ∷ []) status

module _ {A : Type 0} where
  -- The wallet that pays for an order, by its bid transaction.
  abbrev pub payer : Tables A → Option String → Option (Wallet A)
  payer t none = none
  payer t (some transaction) = source_of t transaction

  -- The row of an order in front of those of other orders.
  unfoldable pub with_row :
      Order A → Option (Wallet A) → List (LookupOpenOrdersRow A) → List (LookupOpenOrdersRow A)
  with_row o none rows = rows
  with_row o (some w) rows = record { order = o; wallet_type = w.wallet_type } ∷ rows

  -- The inner joins with the order's bid transaction and that one's source: an order without a
  -- bid transaction has no row.
  unfoldable pub joined : Tables A → List (Order A) → List (LookupOpenOrdersRow A)
  joined t [] = []
  joined t (o ∷ os) = with_row o (payer t o.bid_transaction) (joined t os)

  abbrev pub open_row : LookupOpenOrdersRow A → Bool
  open_row r = is_open r.order.status

  -- Every row of LookupOpenOrders, without its cursor and its limit.
  abbrev pub open_orders : Tables A → List (LookupOpenOrdersRow A)
  open_orders t = where_holds open_row (joined t t.orders)

  abbrev pub row_id : LookupOpenOrdersRow A → String
  row_id r = r.order.id

  abbrev pub order_id : Order A → String
  order_id o = o.id

  abbrev pub execution_id : Execution A → String
  execution_id e = e.id

  abbrev pub waits : Execution A → Bool
  waits e = e.exec_status is execution_pending

  -- A statement that the database refuses.
  unfoldable pub refused : {X : Type 0} → Query A X
  refused s =
      let t = (attempt s).1 in (err database_failed, record t { aborted = t.in_transaction })

  module _ (o : TextOrder) where
    -- A limit that is negative is an error.
    unfoldable pub get_orders : String → ℤ → Query A (List (Order A))
    get_orders cursor (pos limit) = read (λ t. select_page o order_id cursor limit t.orders)
    get_orders cursor (negsuc n) = refused

    unfoldable pub lookup_open_orders : String → ℕ → Query A (List (LookupOpenOrdersRow A))
    lookup_open_orders cursor limit = read (λ t. select_page o row_id cursor limit (open_orders t))

    unfoldable pub lookup_pending_executions : String → ℕ → Query A (List String)
    lookup_pending_executions cursor limit = read (λ t.
        map execution_id (select_page o execution_id cursor limit (where_holds waits t.executions)))

  with_row-All :
      (P : String → Type 0) (o : Order A) (w : Option (Wallet A))
      (rows : List (LookupOpenOrdersRow A))
      → P o.id
      → All (λ r. P (row_id r)) rows
      → All (λ r. P (row_id r)) (with_row o w rows)
  unfolding with_row
  with_row-All P o none rows h k = k
  with_row-All P o (some w) rows h k = (h, k)

  joined-All :
      (P : String → Type 0) (t : Tables A) (os : List (Order A))
      → All (λ o. P o.id) os
      → All (λ r. P (row_id r)) (joined t os)
  unfolding joined
  joined-All P t [] h = tt
  joined-All P t (o ∷ os) h =
      with_row-All P o (payer t o.bid_transaction) (joined t os) h.0 (joined-All P t os h.1)

  with_row-Distinct :
      (o : Order A) (w : Option (Wallet A)) (rows : List (LookupOpenOrdersRow A))
      → All (λ r. o.id ≢ row_id r) rows
      → Distinct row_id rows
      → Distinct row_id (with_row o w rows)
  unfolding with_row
  with_row-Distinct o none rows h k = k
  with_row-Distinct o (some w) rows h k = (h, k)

  joined-Distinct :
      (t : Tables A) (os : List (Order A)) → Distinct order_id os → Distinct row_id (joined t os)
  unfolding joined
  joined-Distinct t [] h = h
  joined-Distinct t (o ∷ os) h =
      with_row-Distinct o (payer t o.bid_transaction) (joined t os)
        (joined-All (λ id. o.id ≢ id) t os h.0) (joined-Distinct t os h.1)

  -- The ids of the open orders are different where those of the orders are.
  pub open_orders-Distinct :
      (t : Tables A) → Distinct order_id t.orders → Distinct row_id (open_orders t)
  open_orders-Distinct t h =
      Distinct-where row_id open_row (joined t t.orders) (joined-Distinct t t.orders h)

  length-joined : (t : Tables A) (os : List (Order A)) → length (joined t os) ≤ length os
  unfolding joined with_row
  length-joined t [] = omega arith
  length-joined t (o ∷ os) = ground (arith, length-joined t os)

  pub length-open_orders : (t : Tables A) → length (open_orders t) ≤ length t.orders
  length-open_orders t =
      omega (arith, length-where open_row (joined t t.orders), length-joined t t.orders)

  pub refused-Fails :
      {X : Type 0} (s : Session A)
      → Holds {X = X} (λ x t. ⊥) (λ e t. t.tables ≡ s.tables) (refused s)
  unfolding refused
  refused-Fails s = failed (attempt-tables s)
