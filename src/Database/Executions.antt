-- ===== src/Database/Executions.antt =====
-- infra/db/orders.sql.go: the queries on the table of executions.
use mogtrade_engine.Base.{
  ◌&&◌, ⊤, ℕ, Bool, Option, none, some, String, [], ◌∷◌, ◌++◌, if◌then◌else◌, string_eq, ◌is◌,
}
use mogtrade_engine.Database.Enums.{OrderStatus, ExecutionStatus, execution_pending, WalletType}
use mogtrade_engine.Database.Rows.{Execution, Tables}
use mogtrade_engine.Database.Table.{both, first_where, any_where, update_where}
use mogtrade_engine.Database.Session.{Query, read, write, write_unique, one, ok, ◌>>=◌}

pub record CreateExecutionParams (A : Type 0) : Type 0 where
  pub id : String
  pub match_quantity : A
  pub symbol : String
  pub bid_price : A
  pub bid_status : OrderStatus
  pub bid_currency : String
  pub bid_exchange_rate_snapshot : A
  pub exec_value : A
  pub ask_price : A
  pub ask_status : OrderStatus
  pub ask_currency : String
  pub ask_exchange_rate_snapshot : A
  pub tracing_id : String
  pub user : Option String
  pub bid : Option String
  pub ask : Option String
  pub ask_wallet : Option String
  pub bid_wallet : Option String
  pub wallets_type : WalletType

-- A column that may not be null refuses a null.
abbrev pub refused_null : Option (Option OrderStatus × Option OrderStatus) → Option String
refused_null (some (some bid, some ask)) = none
refused_null (some (some bid, none)) = some "ask_status"
refused_null (some (none, ask)) = some "bid_status"
refused_null none = none

module _ {A : Type 0} where
  abbrev pub created_execution : ℕ → CreateExecutionParams A → Execution A
  created_execution now p = record {
    id = p.id;
    match_quantity = p.match_quantity;
    symbol = p.symbol;
    user = p.user;
    bid = p.bid;
    bid_price = p.bid_price;
    bid_status = p.bid_status;
    bid_currency = p.bid_currency;
    bid_exchange_rate_snapshot = p.bid_exchange_rate_snapshot;
    exec_value = p.exec_value;
    ask = p.ask;
    ask_price = p.ask_price;
    ask_status = p.ask_status;
    ask_currency = p.ask_currency;
    ask_exchange_rate_snapshot = p.ask_exchange_rate_snapshot;
    exec_status = execution_pending;
    recorded_at = now;
    updated_at = now;
    tracing_id = p.tracing_id;
    ask_wallet = p.ask_wallet;
    bid_wallet = p.bid_wallet;
    wallets_type = p.wallets_type;
  }

  abbrev pub executes : String → Execution A → Bool
  executes id e = e.id is id

  abbrev pub pairs : Option String → Option String → Execution A → Bool
  pairs ask bid e = both e.ask ask && both e.bid bid

  unfoldable pub execution_violates : CreateExecutionParams A → Tables A → Option String
  execution_violates p t =
      if any_where (executes p.id) t.executions
      then some "executions_pkey"
      else if any_where (pairs p.ask p.bid) t.executions
      then some "executions_ask_bid_uidx"
      else none

  -- Returns the new row.
  unfoldable pub create_execution : CreateExecutionParams A → Query A (Execution A)
  create_execution p =
      write_unique (execution_violates p)
        (λ now t. record t { executions = t.executions ++ created_execution now p ∷ [] })
      >>= λ _ s. (ok (created_execution s.now p), s)

  unfoldable pub execution_exists : Option String → Option String → Query A Bool
  execution_exists ask bid = read (λ t. any_where (pairs ask bid) t.executions)

  unfoldable pub find_execution_by_id : String → Query A (Execution A)
  find_execution_by_id id s = one (read (λ t. first_where (executes id) t.executions) s)

  unfoldable pub update_execution_status : ExecutionStatus → String → Query A ⊤
  update_execution_status status id = write (λ now t. record t {
    executions =
        update_where (executes id) (λ e. record e { exec_status = status; updated_at = now })
          t.executions;
  })

  -- The statuses of the orders that the join finds for an execution.
  unfoldable pub joined_statuses :
      Tables A → Execution A → Option (Option OrderStatus × Option OrderStatus)
  joined_statuses t e = elim (first_where (λ o. both e.bid (some o.id)) t.orders) [
    | none ↦ none
    | some bid ↦ elim (first_where (λ o. both e.ask (some o.id)) t.orders) [
      | none ↦ none
      | some ask ↦ some (bid.status, ask.status)
    ]
  ]

  abbrev pub set_statuses :
      ℕ → Execution A → Option (Option OrderStatus × Option OrderStatus) → Execution A
  set_statuses now e (some (some bid, some ask)) = record e {
    bid_status = bid;
    ask_status = ask;
    updated_at = now;
  }
  set_statuses now e (some (some bid, none)) = e
  set_statuses now e (some (none, ask)) = e
  set_statuses now e none = e

  unfoldable pub update_execution_orders_statuses : String → Query A ⊤
  update_execution_orders_statuses id =
      write_unique
        (λ t. elim (first_where (executes id) t.executions) [
          | none ↦ none
          | some e ↦ refused_null (joined_statuses t e)
        ])
        (λ now t. record t {
          executions =
              update_where (executes id) (λ e. set_statuses now e (joined_statuses t e))
                t.executions;
        })
