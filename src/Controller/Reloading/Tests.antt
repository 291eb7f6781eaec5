-- ===== src/Controller/Reloading/Tests.antt =====
-- bootstrapMatchingEngine on a buyer's and a seller's order of one wallet: only the buyer's is placed.
use mogtrade_engine.Base.{◌≡◌, refl, ap, ◌is◌, string_eq, some, none, [], ◌∷◌, map, arith, true}
use mogtrade_engine.Base.Int.{ℤ, pos}
use mogtrade_engine.Decimal.Whole.{whole}
use mogtrade_engine.Database.Enums.{side_buy, wallet_virtual, transaction_completed}
use mogtrade_engine.Database.Rows.{Order, WalletTransaction, Wallet}
use mogtrade_engine.Database.Session.{Session}
use mogtrade_engine.Database.TextOrder.{by_codes, before_code}
use mogtrade_engine.Database.Table.{both, where_holds, placed, sorted_by, first_where}
use mogtrade_engine.Database.Choosing.{Distinct}
use mogtrade_engine.Database.Listing.{order_id, row_id, joined, with_row}
use mogtrade_engine.Controller.Tests.{sell_order, start, no_engines}
use mogtrade_engine.Controller.Reloading.{bootstrap_matching_engine, first_cursor}
use mogtrade_engine.Controller.Reloading.Loaded.{
  Reloads, waiting, bootstrap_matching_engine-Reloads,
}

abbrev pub buy_order : Order ℤ
buy_order = record sell_order {
  side = side_buy;
  id = "b";
  client_order_id = some "b";
  bid_transaction = some "x";
  ask_wallet = none;
}

abbrev payment : WalletTransaction ℤ
payment = record {
  id = "x";
  value = pos 50;
  src = some "w";
  dest = some "system";
  intent = none;
  recorded_at = 1;
  updated_at = 1;
  extra_data = "null";
  idempotency_token = "b";
  done_by = some "u";
  tracing_id = "t";
  currency = some "XAF";
  exchange_rate = pos 1;
  status = transaction_completed;
}

abbrev wallet : Wallet ℤ
wallet = record {
  id = "w";
  owner = some "u";
  starting_balance = record { decimal = pos 100; valid = true };
  wallet_type = wallet_virtual;
}

abbrev pub two_orders : Session ℤ
two_orders = record start {
  tables = record start.tables {
    orders = buy_order ∷ sell_order ∷ [];
    wallets = wallet ∷ [];
    transactions = payment ∷ [];
  };
}

pub two_orders-Distinct : Distinct order_id two_orders.tables.orders
two_orders-Distinct = ((λ same. absurd (ground (arith, ap (λ id. id is "b") same)), tt), (tt, tt))

-- The seller's order is open, and is not found.
buyer_only : map row_id (waiting whole by_codes first_cursor two_orders.tables) ≡ "b" ∷ []
unfolding where_holds placed sorted_by first_where joined with_row before_code both
buyer_only = refl

bootstrap_matching_engine-Reloads_example :
    Reloads whole by_codes first_cursor no_engines two_orders
      (bootstrap_matching_engine whole by_codes no_engines two_orders)
bootstrap_matching_engine-Reloads_example =
    bootstrap_matching_engine-Reloads whole by_codes no_engines two_orders two_orders-Distinct
