-- ===== src/Controller/Standing.antt =====
-- app/controller/orders.go, handlePlaceOrder: how the order of a request stands in the tables while
-- its transaction goes on.
use mogtrade_engine.Base.{
  ℕ, ◌≡◌, refl, false, Option, none, some, String, arith, string_eq, is_refl,
}
use mogtrade_engine.Decimal.{Decimals}
use mogtrade_engine.Database.Enums.{submitted}
use mogtrade_engine.Database.Rows.{Order, Tables}
use mogtrade_engine.Database.Table.{
  both, first_where, first_where-last, first_where-picked, first_where-holds, update_where,
}
use mogtrade_engine.Database.Orders.{has_id, is_owned, placed_order}
use mogtrade_engine.Orders.Service.{order_params}
use mogtrade_engine.Orders.Placing.{is_listed, with_order}
use mogtrade_engine.Orders.Transitions.{with_status}
use mogtrade_engine.Controller.Placing.{PlaceOrderPayload, RequestIds, order_of}

module _ (d : Decimals) where
  open d use {Amount}

  module _ (ids : RequestIds) (p : PlaceOrderPayload Amount) where
    -- The order of the request stands in the tables, submitted, with what pays for it.
    pub record Stands (bid_transaction ask_wallet : Option String) (t : Tables Amount)
        : Type 0 where
      pub order : Order Amount
      pub found : first_where (has_id ids.order_id) t.orders ≡ some order
      pub at : order.status ≡ some submitted
      pub amount : order.quantity ≡ p.quantity
      pub paid_by : order.bid_transaction ≡ bid_transaction
      pub paid_to : order.ask_wallet ≡ ask_wallet

    pub submitted-Stands :
        (rate : Amount) (placed_at marked_at : ℕ) (s t : Tables Amount)
        → is_listed (order_of d ids p rate) s ≡ false
        → t
          ≡ with_status ids.user ids.order_id submitted marked_at
              (with_order (order_of d ids p rate) placed_at s)
        → Stands none none t
    unfolding both
    submitted-Stands rate placed_at marked_at s t fresh tables =
        let row : Order Amount = placed_order placed_at (order_params (order_of d ids p rate)) in
        let last =
          first_where-last (has_id ids.order_id) s.orders row fresh (is_refl ids.order_id) in
        record {
          order = record row { status = some submitted; updated_at = marked_at };
          found = rw tables (
              first_where-picked (has_id ids.order_id) (is_owned (some ids.user) ids.order_id) _ _
                row (λ y. refl) last (ground (arith, is_refl ids.user, is_refl ids.order_id)));
          at = refl;
          amount = refl;
          paid_by = refl;
          paid_to = refl;
        }

    pub moved-Stands :
        (bid ask : Option String) (s t : Tables Amount)
        → t.orders ≡ s.orders
        → Stands bid ask s
        → Stands bid ask t
    moved-Stands bid ask s t same h = record {
      order = h.order;
      found = rw same h.found;
      at = h.at;
      amount = h.amount;
      paid_by = h.paid_by;
      paid_to = h.paid_to;
    }

    pub attached_bid :
        (now : ℕ) (s t : Tables Amount)
        → t.orders
          ≡ update_where
              (has_id ids.order_id)
              (λ o. record o { bid_transaction = some ids.transaction_id; updated_at = now })
              s.orders
        → Stands none none s
        → Stands (some ids.transaction_id) none t
    attached_bid now s t orders h = record {
      order = record h.order { bid_transaction = some ids.transaction_id; updated_at = now };
      found = rw orders (
          first_where-picked (has_id ids.order_id) (has_id ids.order_id) _ s.orders h.order
            (λ y. refl) h.found (first_where-holds (has_id ids.order_id) s.orders h.order h.found));
      at = h.at;
      amount = h.amount;
      paid_by = refl;
      paid_to = h.paid_to;
    }

    pub attached_ask :
        (wallet : String) (now : ℕ) (s t : Tables Amount)
        → t.orders
          ≡ update_where
              (has_id ids.order_id)
              (λ o. record o { ask_wallet = some wallet; updated_at = now })
              s.orders
        → Stands none none s
        → Stands none (some wallet) t
    attached_ask wallet now s t orders h = record {
      order = record h.order { ask_wallet = some wallet; updated_at = now };
      found = rw orders (
          first_where-picked (has_id ids.order_id) (has_id ids.order_id) _ s.orders h.order
            (λ y. refl) h.found (first_where-holds (has_id ids.order_id) s.orders h.order h.found));
      at = h.at;
      amount = h.amount;
      paid_by = h.paid_by;
      paid_to = refl;
    }
