-- ===== src/Orders/Tests.antt =====
-- The orders service on a small database of whole numbers, and the theorems at work on it.
use mogtrade_engine.Base.{◌≡◌, ◌↔◌, refl, true, false, none, some, String, [], ◌∷◌, string_eq, ◌is◌}
use mogtrade_engine.Base.Int.{ℤ, pos}
use mogtrade_engine.Decimal.Whole.{whole}
use mogtrade_engine.Database.Enums.{
  OrderStatus, pending, submitted, partially_filled, filled, cancelled, rejected, type_limit,
  side_sell, side_buy,
}
use mogtrade_engine.Database.Rows.{Order, Tables}
use mogtrade_engine.Database.Table.{any_where, first_where, both}
use mogtrade_engine.Database.Session.{Session, ok, read, write, write_unique, attempt}
use mogtrade_engine.Database.Session.Rules.{Holds}
use mogtrade_engine.Database.Orders as Orders
use mogtrade_engine.Database.Orders.{
  order_violates, has_id, filled_order, fill_order_by_id, find_owned_order, mark_order_cancelled,
}
use mogtrade_engine.Orders.Status.{is_order_status_transition_valid, contains}
use mogtrade_engine.Orders.Service.{
  PlaceOrderParams, submit_order, reject_order, cancel_order, place_order,
}
use mogtrade_engine.Orders.Transitions.{Moves, MovesIt, changes-Move}
use mogtrade_engine.Orders.Placing as Placing
use mogtrade_engine.Orders.Placing.{
  is_listed, is_known, with_order, place_order-places, place_order-once,
}
use mogtrade_engine.Orders.Filling.{fill_order_by_id-skips}
use mogtrade_engine.Orders.Risk.{
  OrderContext, validate_order, with_velocity_checking, with_margin_checking,
  with_position_checking,
}
use mogtrade_engine.Orders.Risk.Limits.{IsWithin, limits_iff}

abbrev order_at : String → OrderStatus → Order ℤ
order_at id status = record {
  user_id = some "u";
  symbol = "TEA";
  side = side_sell;
  order_type = type_limit;
  quantity = pos 5;
  limit_price = record { decimal = pos 10; valid = true };
  stop_price = record { decimal = pos 0; valid = false };
  id = id;
  client_order_id = some id;
  status = some status;
  created_at = 1;
  updated_at = 1;
  tracing_id = "t";
  currency = "XAF";
  exchange_rate = pos 1;
  bid_transaction = some "w";
  ask_wallet = none;
}

abbrev stock : Tables ℤ
stock = record {
  orders = order_at "a" submitted ∷ order_at "b" pending ∷ order_at "c" partially_filled ∷ [];
  executions = [];
  wallets = [];
  transactions = [];
  entries = [];
  snapshots = [];
  kycs = [];
  users = [];
  accounts = [];
  refresh_tokens = [];
  verifications = [];
}

abbrev start : Session ℤ
start = record { tables = stock; now = 7; faults = []; in_transaction = false; aborted = false }

-- Cancelling a pending order works, and a second time it is refused.
cancels : (cancel_order "u" "b" start).0 ≡ ok (order_at "b" pending)
unfolding cancel_order find_owned_order mark_order_cancelled read write attempt first_where both
    is_order_status_transition_valid contains
cancels = refl

fills_rest : is_order_status_transition_valid (some partially_filled) filled ≡ true
unfolding is_order_status_transition_valid contains
fills_rest = refl

abbrev request : PlaceOrderParams ℤ
request = record {
  tracing_id = "t";
  order_id = "n";
  idempotency_token = "n";
  placed_by = "u";
  symbol = "TEA";
  currency = "XAF";
  side = side_buy;
  order_type = type_limit;
  quantity = pos 2;
  exchange_rate_snapshot = pos 1;
  limit_price = record { decimal = pos 9; valid = true };
  stop_price = record { decimal = pos 0; valid = false };
}

place_order-places_example :
    Holds
      (λ x t.
        ((request.order_type is type_limit) ≡ true)
        × (is_listed request start.tables ≡ false)
        × (is_known request start.tables ≡ false)
        × (t.tables ≡ with_order request start.now start.tables))
      (λ e t. (t.tables ≡ start.tables) × Placing.WhyNot request start.tables e)
      (place_order request start)
place_order-places_example = place_order-places request start

abbrev after_placing : Session ℤ
after_placing = (place_order request start).1

request_placed : place_order request start ≡ (ok tt, after_placing)
unfolding place_order Orders.place_order write_unique order_violates attempt any_where both
request_placed = refl

found_c : first_where (has_id "c") start.tables.orders ≡ some (order_at "c" partially_filled)
unfolding first_where
found_c = refl

partly_filled_kept :
    Holds
      (λ x t. first_where (has_id "c") t.tables.orders ≡ some (order_at "c" partially_filled))
      (λ e t. first_where (has_id "c") t.tables.orders ≡ some (order_at "c" partially_filled))
      (fill_order_by_id whole (pos 1) "c" start)
partly_filled_kept =
    fill_order_by_id-skips whole (pos 1) "c" (order_at "c" partially_filled) start found_c refl

abbrev context : OrderContext ℤ
context = record {
  symbol = "TEA";
  side = side_buy;
  order_type = type_limit;
  quantity = pos 5;
  limit_price = record { decimal = pos 10; valid = true };
  stop_price = record { decimal = pos 0; valid = false };
  account_balance = pos 20;
  current_ask = pos 10;
  current_position = pos 0;
}

limits_iff_example :
    ((validate_order context (
        with_velocity_checking whole (pos 9) (pos 99)
        ∷ with_margin_checking whole
        ∷ with_position_checking whole [] (pos 9)
        ∷ [])).approved
      ≡ true)
    ↔ IsWithin whole (pos 9) (pos 99) (pos 9) [] context
limits_iff_example = limits_iff whole (pos 9) (pos 99) (pos 9) [] context

changes-Move_example :
    Moves "u" "b" submitted start (submit_order "u" "b" start)
    × Moves "u" "b" rejected start (reject_order "u" "b" start)
    × MovesIt "u" "b" cancelled start (cancel_order "u" "b" start)
changes-Move_example = changes-Move "u" "b" start
