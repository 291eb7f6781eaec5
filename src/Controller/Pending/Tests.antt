-- ===== src/Controller/Pending/Tests.antt =====
-- applyPendingFills on one pending execution of a buyer's and a seller's order.
use mathlib.Core.Option
use mogtrade_engine.Base.{◌≡◌, refl, false, Option, some, none, [], ◌∷◌}
use mogtrade_engine.Base.Int.{ℤ, pos, ◌-ℤ◌}
use mogtrade_engine.Decimal.Whole.{whole}
use mogtrade_engine.Database.Enums.{submitted, execution_pending, wallet_virtual}
use mogtrade_engine.Database.Rows.{Execution}
use mogtrade_engine.Controller.Reloading.Tests.{two_orders}
use mogtrade_engine.Controller.Pending.{
  apply_pending_fills, with_captured, captured, fill_pages, page_filled, fill_batch, filled_one,
}
use mogtrade_engine.Database.Session.{Session, Result, ok, err, attempt, read, write, write_unique}
use mogtrade_engine.Database.Listing.{lookup_pending_executions}
use mogtrade_engine.Database.Paging.{select_page}
use mogtrade_engine.Database.Table.{
  any_where, sorted_by, where_holds, placed, first_where, both, update_where,
}
use mogtrade_engine.Database.TextOrder.{by_codes, before_code}
use mogtrade_engine.Orders.Service.{CreateExecutionParams, create_execution, apply_execution_fill}
use mogtrade_engine.Orders.Insertion.{is_executed, Recorded}
use mogtrade_engine.Orders.Recording.{create_execution-records}
use mogtrade_engine.Orders.Executing.{IsApplied, apply_execution_fill-atomic}
use mogtrade_engine.Database.Session.Rules.{Holds}
use mogtrade_engine.Database.Wallets.{find_wallet_from_wallet_transaction_src}
use mogtrade_engine.Controller.Tests.{same_rates, event}
use mogtrade_engine.Controller.Matched.{match_found, IsExecuted, match_found-executes}
use mogtrade_engine.Database.Executions as Executions
use mogtrade_engine.Database.Executions.{
  executes, execution_exists, execution_violates, find_execution_by_id, joined_statuses,
  update_execution_orders_statuses, update_execution_status,
}
use mogtrade_engine.Database.Choosing.{last_of}
use mogtrade_engine.Database.Orders.{find_order_by_id, fill_order_by_id, filled_order}
use mogtrade_engine.Database.Transaction.{with_transaction}
use mogtrade_engine.Controller.Pending.Settling.{Settles, apply_pending_fills-Settles}

abbrev pub execution : Execution ℤ
execution = record {
  id = "e";
  match_quantity = pos 3;
  symbol = "TEA";
  user = none;
  bid = some "b";
  bid_price = pos 10;
  bid_status = submitted;
  bid_currency = "XAF";
  bid_exchange_rate_snapshot = pos 1;
  exec_value = pos 30;
  ask = some "a";
  ask_price = pos 10;
  ask_status = submitted;
  ask_currency = "XAF";
  ask_exchange_rate_snapshot = pos 1;
  exec_status = execution_pending;
  recorded_at = 1;
  updated_at = 1;
  tracing_id = "t";
  ask_wallet = some "w";
  bid_wallet = some "w";
  wallets_type = wallet_virtual;
}

abbrev pub one_pending : Session ℤ
one_pending = record two_orders {
  tables = record two_orders.tables { executions = execution ∷ [] };
}

published : Option.map (λ r. r.0) (apply_pending_fills whole by_codes one_pending) ≡ some ("e" ∷ [])
unfolding apply_pending_fills with_captured attempt captured fill_pages page_filled
    lookup_pending_executions read select_page sorted_by where_holds before_code placed fill_batch
    filled_one apply_execution_fill find_execution_by_id first_where last_of joined_statuses
    update_execution_orders_statuses update_execution_status fill_order_by_id filled_order write
    write_unique both update_where with_transaction ◌-ℤ◌
published = refl

apply_pending_fills-Settles_example :
    Settles whole by_codes one_pending (apply_pending_fills whole by_codes one_pending)
apply_pending_fills-Settles_example =
    apply_pending_fills-Settles whole by_codes one_pending (tt, tt)

apply_execution_fill-atomic_example :
    Holds
      (λ x t. IsApplied whole "e" 7 one_pending.tables t.tables)
      (λ e t. t.tables ≡ one_pending.tables)
      (with_transaction (apply_execution_fill whole "e") one_pending)
apply_execution_fill-atomic_example = apply_execution_fill-atomic whole "e" one_pending

-- The pending execution is applied.
applies : (with_transaction (apply_execution_fill whole "e") one_pending).0 ≡ ok tt
unfolding with_transaction attempt read apply_execution_fill find_execution_by_id first_where
    joined_statuses update_execution_orders_statuses update_execution_status fill_order_by_id
    filled_order write write_unique both update_where ◌-ℤ◌
applies = refl

nothing_executed : any_where (executes "e") two_orders.tables.executions ≡ false
unfolding any_where
nothing_executed = refl

match_found-executes_example :
    Holds
      (λ x t. IsExecuted whole same_rates "system" "e" "t" event two_orders.tables t.tables)
      (λ e t. t.tables ≡ two_orders.tables)
      (with_transaction (match_found whole same_rates "system" "e" "t" event) two_orders)
match_found-executes_example =
    match_found-executes whole same_rates "system" "e" "t" event two_orders nothing_executed

-- The match of the two orders is executed.
executes_match :
    (with_transaction (match_found whole same_rates "system" "e" "t" event) two_orders).0 ≡ ok "e"
unfolding with_transaction match_found find_order_by_id create_execution Executions.create_execution
    execution_exists execution_violates find_wallet_from_wallet_transaction_src attempt read
    any_where apply_execution_fill find_execution_by_id first_where joined_statuses
    update_execution_orders_statuses update_execution_status fill_order_by_id filled_order write
    write_unique both update_where ◌-ℤ◌
executes_match = refl

abbrev recorded_in : Result (Option (Execution ℤ)) → Option (Execution ℤ)
recorded_in (ok x) = x
recorded_in (err e) = none

abbrev matched_pair : CreateExecutionParams ℤ
matched_pair = record {
  id = "e";
  bid = "b";
  ask = "a";
  user = "u";
  tracing_id = "t";
  matched_quantity = pos 3;
  bid_exchange_rate = pos 1;
  ask_exchange_rate = pos 1;
}

create_execution-records_example :
    Holds
      (λ r t.
        (is_executed whole matched_pair two_orders.tables ≡ false)
        × Recorded whole matched_pair two_orders r t)
      (λ e t. t.tables ≡ two_orders.tables)
      (create_execution whole matched_pair two_orders)
create_execution-records_example = create_execution-records whole matched_pair two_orders

-- The execution is recorded.
pairs_up :
    Option.map (λ x. x.id) (recorded_in (create_execution whole matched_pair two_orders).0)
    ≡ some "e"
unfolding create_execution Executions.create_execution execution_exists execution_violates
    find_wallet_from_wallet_transaction_src attempt read any_where find_order_by_id first_where
    write_unique both
pairs_up = refl
