-- ===== src/Controller/Reloading.antt =====
-- app/controller/orders.go, bootstrapMatchingEngine: at the start, the open orders are read in
-- pages and placed in the engines. The loop runs on fuel, one more than the orders of the table.
pub mod Loaded
pub mod Tests
use mogtrade_engine.Base.{
  ℕ, suc, zero, Option, none, some, String, List, [], ◌∷◌, length, if◌then◌else◌, ◌is◌,
}
use mogtrade_engine.Decimal.{Decimals}
use mogtrade_engine.Database.Enums.{wallet_real, wallet_type_eq}
use mogtrade_engine.Database.TextOrder.{TextOrder}
use mogtrade_engine.Database.Choosing.{last_of}
use mogtrade_engine.Database.Session.{Session, Result, ok, err}
use mogtrade_engine.Database.Listing.{LookupOpenOrdersRow, row_id, order_id, lookup_open_orders}
use mogtrade_engine.Matching.Book.{PlaceMatchOrderParams}
use mogtrade_engine.Matching.Engine.Calls.{place_match_order}
use mogtrade_engine.Controller.Cancelling.{Engines}

abbrev pub first_cursor : String
first_cursor = "00000000000000000000000000"

abbrev pub batch_size : ℕ
batch_size = 1000

module _ (d : Decimals) where
  open d use {Amount}

  abbrev pub Row : Type 0
  Row = LookupOpenOrdersRow Amount

  abbrev pub row_params : Row → PlaceMatchOrderParams Amount
  row_params r = record {
    order_id = r.order.id;
    symbol = r.order.symbol;
    side = r.order.side;
    quantity = r.order.quantity;
    price = r.order.limit_price.decimal;
  }

  -- getEngine, and the placing in the engine that it gives.
  unfoldable pub place_row : Engines Amount → Row → Engines Amount
  place_row engines r =
      if r.wallet_type is wallet_real
      then record engines { real = place_match_order d engines.real (row_params r) }
      else record engines { virtual = place_match_order d engines.virtual (row_params r) }

  unfoldable pub place_rows : Engines Amount → List Row → Engines Amount
  place_rows engines [] = engines
  place_rows engines (r ∷ rs) = place_rows (place_row engines r) rs

  abbrev pub Ends : Type 0
  Ends = Option (Engines Amount × Session Amount)

  -- A page is placed, and the last id of it is the cursor of the next.
  unfoldable pub page_placed :
      (String → Engines Amount → Session Amount → Ends)
      → Engines Amount
      → Result (List Row) × Session Amount
      → Ends
  page_placed next engines (err e, t) = some (engines, t)
  page_placed next engines (ok [], t) = some (engines, t)
  page_placed next engines (ok (r ∷ rs), t) =
      next (row_id (last_of r rs)) (place_rows engines (r ∷ rs)) t

  module _ (o : TextOrder) where
    unfoldable pub load_pages : ℕ → ℕ → String → Engines Amount → Session Amount → Ends
    load_pages zero limit cursor engines s = none
    load_pages (suc fuel) limit cursor engines s =
        page_placed (load_pages fuel limit) engines (lookup_open_orders o cursor limit s)

    unfoldable pub bootstrap_matching_engine : Engines Amount → Session Amount → Ends
    bootstrap_matching_engine engines s =
        load_pages (suc (length s.tables.orders)) batch_size first_cursor engines s
