-- ===== src/Controller/Tests.antt =====
-- The orders controller on a small database of whole numbers, and the theorems at work on it.
use mogtrade_engine.Base.{
  ⊤, ◌↔◌, ◌⊎◌, ◌||◌, ◌is◌, ◌≡◌, refl, true, false, none, some, String, [], ◌∷◌, string_eq,
}
use mogtrade_engine.Base.Int.{ℤ, pos}
use mogtrade_engine.Decimal.Whole.{whole}
use mogtrade_engine.Database.Enums.{
  OrderSide, wallet_virtual, submitted, type_limit, type_stop, type_stop_limit, side_sell, side_buy,
}
use mogtrade_engine.Database.Rows.{Order, WalletSnapshot}
use mogtrade_engine.Database.Table.{update_where, both, first_where, any_where}
use mogtrade_engine.Database.Session.{
  read, write, attempt, write_unique, Session, Query, Result, ok,
}
use mogtrade_engine.Database.Transaction.{with_transaction}
use mogtrade_engine.Database.Orders.{
  has_id, find_owned_order, mark_order_submitted, mark_order_cancelled, order_violates,
  attach_ask_wallet_to_order, attach_bid_transaction_to_order,
}
use mogtrade_engine.Database.Orders
use mogtrade_engine.Database.Wallets
use mogtrade_engine.Database.Wallets.{
  create_transaction_ledger_entry, refresh_wallet_snapshots, find_wallet_transaction_by_id,
  update_transaction_status_by_id, idempotency_key_exists, transaction_violates,
  get_order_wallet_type, find_wallet_snapshot_by_owner_id,
}
use mogtrade_engine.Orders.Service
use mogtrade_engine.Orders.Placing.{is_known}
use mogtrade_engine.Orders.Service.{submit_order, cancel_order}
use mogtrade_engine.Orders.Status.{is_order_status_transition_valid, contains}
use mogtrade_engine.Orders.Risk.{validate_order}
use mogtrade_engine.Billing.Status.{is_wallet_transaction_transition_valid}
use mogtrade_engine.Billing.Service.{
  record_wallet_transaction, update_wallet_transaction_status, get_current_wallet_snapshot,
}
use mogtrade_engine.Matching.Engine.{OrderMatchedEventArgs}
use mogtrade_engine.Controller.Placing.{
  PlaceOrderPayload, RequestIds, validate, no_price, validate_iff, charge, place, order_of,
}
use mogtrade_engine.Controller.Handling.{
  PlaceResponse, PlaceHandled, place_unprocessable, handle_place_order,
  handle_place_order-PlaceHandled, handle_place_order-once, refusal_of, placed_in, after_validating,
}
use mogtrade_engine.Controller.Cancelling.{
  Engines, Handled, VirtualOnly, accepted, handle_cancel_order, handle_cancel_order-spares_real,
  handle_cancel_order-Handled,
}

abbrev pub sell_order : Order ℤ
sell_order = record {
  user_id = some "u";
  symbol = "TEA";
  side = side_sell;
  order_type = type_limit;
  quantity = pos 5;
  limit_price = record { decimal = pos 10; valid = true };
  stop_price = record { decimal = pos 0; valid = false };
  id = "a";
  client_order_id = some "a";
  status = some submitted;
  created_at = 1;
  updated_at = 1;
  tracing_id = "t";
  currency = "XAF";
  exchange_rate = pos 1;
  bid_transaction = none;
  ask_wallet = some "w";
}

abbrev pub start : Session ℤ
start = record {
  tables = record {
    orders = sell_order ∷ [];
    executions = [];
    wallets = [];
    transactions = [];
    entries = [];
    snapshots = [];
    kycs = [];
    users = [];
    accounts = [];
    refresh_tokens = [];
    verifications = [];
  };
  now = 7;
  faults = [];
  in_transaction = false;
  aborted = false;
}

abbrev pub no_engines : Engines ℤ
no_engines = record { real = record { books = [] }; virtual = record { books = [] } }

abbrev pub same_rates : String → String → Result (ℤ × ℤ)
same_rates bid ask = ok (pos 1, pos 1)

abbrev pub event : OrderMatchedEventArgs ℤ
event = record {
  bid = "b";
  ask = "a";
  symbol = "TEA";
  matched_at = 6;
  match_quantity = pos 3;
  remaining_quantity = pos 2;
}

found_a : first_where (has_id "a") start.tables.orders ≡ some sell_order
unfolding first_where
found_a = refl

handle_cancel_order-spares_real_example :
    VirtualOnly whole "u" "a" no_engines start (handle_cancel_order whole "u" "a" no_engines start)
handle_cancel_order-spares_real_example =
    handle_cancel_order-spares_real whole "u" "a" no_engines start sell_order found_a refl

handle_cancel_order-Handled_example :
    Handled whole "u" "a" no_engines start (handle_cancel_order whole "u" "a" no_engines start)
handle_cancel_order-Handled_example = handle_cancel_order-Handled whole "u" "a" no_engines start

cancels_a : (handle_cancel_order whole "u" "a" no_engines start).0 ≡ accepted
unfolding handle_cancel_order with_transaction cancel_order find_owned_order mark_order_cancelled
    read write attempt first_where both is_order_status_transition_valid contains
    get_order_wallet_type
cancels_a = refl

abbrev payload : OrderSide → PlaceOrderPayload ℤ
payload side = record {
  symbol = "TEA";
  currency = "XAF";
  side = side;
  order_type = type_limit;
  limit_price = record { decimal = pos 10; valid = true };
  stop_price = record { decimal = pos 0; valid = false };
  idempotency_token = "k";
  quantity = pos 5;
  wallet_type = wallet_virtual;
}

payload_passes : (validate whole (payload side_buy) ≡ []) ↔ (
    ((payload side_buy).idempotency_token is "") ≡ false
    × (((payload side_buy).order_type is type_limit)
            || ((payload side_buy).order_type is type_stop_limit)
          ≡ false
        ⊎ no_price whole (payload side_buy).limit_price ≡ false)
    × (((payload side_buy).order_type is type_stop)
            || ((payload side_buy).order_type is type_stop_limit)
          ≡ false
        ⊎ no_price whole (payload side_buy).stop_price ≡ false))
payload_passes = validate_iff whole (payload side_buy)

abbrev ids : RequestIds
ids = record { user = "u"; order_id = "n"; tracing_id = "t"; transaction_id = "x" }

abbrev pub wallet_of_u : WalletSnapshot ℤ
wallet_of_u = record {
  wallet_id = "w";
  owner_id = some "u";
  starting_balance = pos 100;
  current_balance = pos 100;
  total_transactions = 0;
  last_activity_at = none;
  snapshot_created_at = 1;
  wallet_type = wallet_virtual;
}

abbrev pub with_wallet : Session ℤ
with_wallet = record start { tables = record start.tables { snapshots = wallet_of_u ∷ [] } }

abbrev placed : OrderSide → Query ℤ ⊤
placed side =
    with_transaction (place whole (λ currency. ok (pos 1)) (λ type. "system") ids (payload side))

-- A seller's order is placed.
sell_placed : (placed side_sell with_wallet).0 ≡ ok tt
unfolding with_transaction place charge get_current_wallet_snapshot find_wallet_snapshot_by_owner_id
    read write attempt first_where any_where both Orders.place_order Service.place_order
    write_unique order_violates validate_order submit_order find_owned_order mark_order_submitted
    is_order_status_transition_valid contains attach_ask_wallet_to_order
sell_placed = refl

abbrev handled : PlaceOrderPayload ℤ → PlaceResponse × Session ℤ × Engines ℤ
handled p =
    handle_place_order whole (λ currency. ok (pos 1)) (λ type. "system") ids p no_engines
      with_wallet

handle_place_order-PlaceHandled_example :
    PlaceHandled whole ids
      (payload side_sell)
      no_engines
      with_wallet
      (λ currency. ok (pos 1))
      (handled (payload side_sell))
handle_place_order-PlaceHandled_example =
    handle_place_order-PlaceHandled whole ids (payload side_sell) no_engines with_wallet
      (λ currency. ok (pos 1)) (λ type. "system")

abbrev known_payload : PlaceOrderPayload ℤ
known_payload = record (payload side_sell) { idempotency_token = "a" }

known_token : is_known (order_of whole ids known_payload (pos 1)) with_wallet.tables ≡ true
unfolding any_where both
known_token = refl

handle_place_order-once_example :
    ((handled known_payload).1.tables ≡ with_wallet.tables)
    × ((handled known_payload).2 ≡ no_engines)
handle_place_order-once_example =
    handle_place_order-once whole ids known_payload no_engines with_wallet (λ currency. ok (pos 1))
      (λ type. "system") (pos 1) known_token

-- A buyer without a wallet is told so.
refuses_stranger :
    (handle_place_order whole
      (λ currency. ok (pos 1))
      (λ type. "system")
      ids
      (payload side_buy)
      no_engines
      start).0
    ≡ place_unprocessable
unfolding handle_place_order after_validating placed_in refusal_of validate with_transaction place
    get_current_wallet_snapshot find_wallet_snapshot_by_owner_id read attempt first_where any_where
    both
refuses_stranger = refl

-- A buyer's order is placed and charged.
buy_placed : (placed side_buy with_wallet).0 ≡ ok tt
unfolding with_transaction place charge get_current_wallet_snapshot find_wallet_snapshot_by_owner_id
    read write attempt first_where any_where both Orders.place_order Service.place_order
    write_unique order_violates validate_order submit_order find_owned_order mark_order_submitted
    is_order_status_transition_valid contains attach_bid_transaction_to_order
    record_wallet_transaction Wallets.record_wallet_transaction transaction_violates
    create_transaction_ledger_entry refresh_wallet_snapshots update_wallet_transaction_status
    find_wallet_transaction_by_id update_transaction_status_by_id
    is_wallet_transaction_transition_valid idempotency_key_exists update_where
    mogtrade_engine.Decimal.Whole.is_equal mogtrade_engine.Billing.Status.contains
buy_placed = refl
