-- ===== src/Orders/Executing.antt =====
-- services/orders/service.go: ApplyExecutionFill inside the transaction of its caller.
use mogtrade_engine.Base.{if◌then◌else◌, ⊤, ℕ, ◌≡◌, some, String, string_eq}
use mogtrade_engine.Decimal.{Decimals}
use mogtrade_engine.Database.Enums.{execution_filled, partially_filled, filled}
use mogtrade_engine.Database.Rows.{Execution, Tables}
use mogtrade_engine.Database.Table.{first_where, update_where}
use mogtrade_engine.Database.Session.{
  Session, Result, Error, after, or_fail, nil_dereference, ◌>>=◌, ◌>>◌,
}
use mogtrade_engine.Database.Session.Rules.{
  Holds, Holds-after, Holds-mono, Holds-handled, or_fail-Holds, Writes, Writes-then, one-Holds,
  write-Holds, write_unique-Holds,
}
use mogtrade_engine.Database.Orders.{can_fill, filled_order, fill_order_by_id}
use mogtrade_engine.Database.Executions.{
  executes, joined_statuses, set_statuses, find_execution_by_id, update_execution_status,
  update_execution_orders_statuses,
}
use mogtrade_engine.Database.Transaction.{with_transaction, with_transaction-Holds}
use mogtrade_engine.Orders.Service.{or_execution_not_found, apply_execution_fill}

module _ (d : Decimals) where
  open d use {Amount, zero_amount, sub, less_than}

  -- A submitted order is filled by a quantity: the rest is its new quantity, or zero.
  abbrev pub filling : Amount → String → ℕ → Tables Amount → Tables Amount
  filling quantity id now t = record t {
    orders =
        update_where (can_fill d id)
          (λ o.
            let left = sub o.quantity quantity in
            record o {
              quantity = if less_than left zero_amount then zero_amount else left;
              status =
                  if less_than zero_amount left
                  then (if less_than left o.quantity then some partially_filled else o.status)
                  else some filled;
              updated_at = now;
            })
          t.orders;
  }

  abbrev pub marking : String → ℕ → Tables Amount → Tables Amount
  marking id now t = record t {
    executions =
        update_where (executes id)
          (λ e. record e { exec_status = execution_filled; updated_at = now }) t.executions;
  }

  abbrev pub joining : String → ℕ → Tables Amount → Tables Amount
  joining id now t = record t {
    executions =
        update_where (executes id) (λ e. set_statuses now e (joined_statuses t e)) t.executions;
  }

  -- The tables once the execution is applied: the orders that are submitted are filled by
  -- its quantity, the execution is filled, and it has the statuses of the orders.
  abbrev pub applied : String → Amount → String → String → ℕ → Tables Amount → Tables Amount
  applied id quantity ask bid now t =
      joining id now (marking id now (filling quantity bid now (filling quantity ask now t)))

  pub record IsApplied (id : String) (now : ℕ) (s t : Tables Amount) : Type 0 where
    pub exec : Execution Amount
    pub ask : String
    pub bid : String
    pub found : first_where (executes id) s.executions ≡ some exec
    pub of_ask : exec.ask ≡ some ask
    pub of_bid : exec.bid ≡ some bid
    pub tables : t ≡ applied id exec.match_quantity ask bid now s

  abbrev NothingSaid : Error → Session Amount → Type 0
  NothingSaid e t = ⊤

  module _ (id : String) (s : Session Amount) (exec : Execution Amount) (ask : String)
      (found : first_where (executes id) s.tables.executions ≡ some exec)
      (of_ask : exec.ask ≡ some ask) where
    abbrev quantity : Amount
    quantity = exec.match_quantity

    abbrev asked : ℕ → Tables Amount → Tables Amount
    asked now x = filling quantity ask now x

    abbrev both_filled : String → ℕ → Tables Amount → Tables Amount
    both_filled bid now x = filling quantity bid now (asked now x)

    abbrev marked_filled : String → ℕ → Tables Amount → Tables Amount
    marked_filled bid now x = marking id now (both_filled bid now x)

    abbrev Applies : Result ⊤ × Session Amount → Type 0
    Applies r = Holds (λ x t. IsApplied id s.now s.tables t.tables) NothingSaid r

    finish :
        (bid : String) (u : Session Amount)
        → exec.bid ≡ some bid
        → Writes (both_filled bid) s u
        → Applies (
            after
              (update_execution_status execution_filled id u)
              (λ _. update_execution_orders_statuses id))
    unfolding update_execution_status update_execution_orders_statuses
    finish bid u of_bid reached =
        Holds-after _ _ (write-Holds (marking id) u) (λ e v h. tt)
          (λ x v marked.
            Holds-mono _ (write_unique-Holds _ (joining id) v) (λ e w h. tt)
              (λ y w joined. record {
                exec = exec;
                ask = ask;
                bid = bid;
                found = found;
                of_ask = of_ask;
                of_bid = of_bid;
                tables =
                    (Writes-then (marked_filled bid) (joining id) s v w
                      (Writes-then (both_filled bid) (marking id) s u v reached marked) joined.1).0;
              }))

    fill_both :
        (t : Session Amount)
        → Writes (λ now x. x) s t
        → Applies (
            after (fill_order_by_id d exec.match_quantity ask t) (λ _.
              or_fail exec.bid nil_dereference >>= λ bid.
              fill_order_by_id d exec.match_quantity bid
              >> (update_execution_status execution_filled id
                  >> update_execution_orders_statuses id)))
    unfolding fill_order_by_id filled_order
    fill_both t same =
        Holds-after _ _ (write-Holds (filling exec.match_quantity ask) t) (λ e u h. tt)
          (λ x u ask_filled.
            Holds-after _ _ (or_fail-Holds exec.bid nil_dereference u) (λ e v h. tt)
              (λ bid v of_bid.
                Holds-after _ _ (write-Holds (filling exec.match_quantity bid) v) (λ e w h. tt)
                  (λ y w bid_filled. finish bid w of_bid.0 (
                    Writes-then asked (filling quantity bid) s v w
                      (rw (← of_bid.1) at
                        (Writes-then (λ now x. x) (filling quantity ask) s t u same ask_filled))
                      bid_filled))))

  pub apply_execution_fill-IsApplied :
      (id : String) (s : Session Amount)
      → Holds
          (λ x t. IsApplied id s.now s.tables t.tables)
          NothingSaid
          (apply_execution_fill d id s)
  unfolding apply_execution_fill find_execution_by_id fill_order_by_id filled_order
      update_execution_status update_execution_orders_statuses
  apply_execution_fill-IsApplied id s =
      Holds-after _ _
        (Holds-handled {F = NothingSaid} or_execution_not_found _
          (one-Holds (λ t. first_where (executes id) t.executions) s) (λ e t h. tt))
        (λ e t h. tt)
        (λ exec t h.
          Holds-after _ _ (or_fail-Holds exec.ask nil_dereference t) (λ e u k. tt)
            (λ ask u of_ask.
              fill_both id s exec ask h.1 of_ask.0 u (rw of_ask.1 (h.0.tables, h.0.now))))

  -- An execution is applied whole or not at all: inside the transaction of its caller,
  -- ApplyExecutionFill succeeds only on an execution that names both its orders. It then fills the
  -- ask and the bid by its quantity, each only if its status is submitted (an order with another
  -- status stays as it is), marks the execution filled and copies the statuses of the orders into
  -- it, and changes nothing else; when it fails, nothing is changed.
  pub apply_execution_fill-atomic :
      (id : String) (s : Session Amount)
      → Holds
          (λ x t. IsApplied id s.now s.tables t.tables)
          (λ e t. t.tables ≡ s.tables)
          (with_transaction (apply_execution_fill d id) s)
  apply_execution_fill-atomic id s =
      with_transaction-Holds (λ x t. IsApplied id s.now s.tables t) (apply_execution_fill d id) s
        (λ from same. rw (← same.tables, ← same.now) (apply_execution_fill-IsApplied id from))
