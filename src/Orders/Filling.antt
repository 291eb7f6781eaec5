-- ===== src/Orders/Filling.antt =====
-- infra/db/orders.sql.go, fillOrderById: what filling a part of an order does to its row.
use mogtrade_engine.Base.{
  ◌≡◌, ◌⊎◌, refl, true, false, some, inl, inr, String, arith, Bool-cases, string_eq,
}
use mogtrade_engine.Decimal.{Decimals}
use mogtrade_engine.Decimal.Laws.{lt-sub, zero_add, lt_asym}
use mogtrade_engine.Database.Enums.{partially_filled, filled, order_status_eq}
use mogtrade_engine.Database.Rows.{Order}
use mogtrade_engine.Database.Table.{first_where, first_where-kept}
use mogtrade_engine.Database.Session.{Session}
use mogtrade_engine.Database.Session.Rules.{Holds, Holds-mono, write-Holds}
use mogtrade_engine.Database.Orders.{has_id, can_fill, is_submitted, filled_order, fill_order_by_id}

module _ (d : Decimals) where
  open d use {
    Amount, zero_amount, add, sub, less_than, sub_add, lt_irrefl, lt_connected, lt_trans, lt_add,
  }

  smaller : (a b : Amount) → less_than zero_amount b ≡ true → less_than (sub a b) a ≡ true
  smaller a b positive =
      let moved = lt_add zero_amount b (sub a b) in
      ground (arith, sub_add a b, d.add_comm (sub a b) b, zero_add d (sub a b))

  -- Filling a positive quantity below that of the order leaves the rest, partially filled; filling
  -- all of it or more leaves nothing, filled.
  pub filled_order-leaves :
      (o : Order Amount) (quantity : Amount)
      → less_than zero_amount quantity ≡ true
      → ((less_than quantity o.quantity ≡ true)
          × ((filled_order d quantity o).status ≡ some partially_filled)
          × (add (filled_order d quantity o).quantity quantity ≡ o.quantity))
        ⊎ ((less_than quantity o.quantity ≡ false)
            × ((filled_order d quantity o).status ≡ some filled)
            × ((filled_order d quantity o).quantity ≡ zero_amount))
  unfolding filled_order
  filled_order-leaves o quantity positive = elim (Bool-cases (less_than quantity o.quantity)) [
    | inl part ↦ inl (
        ground (
          arith,
          lt-sub d o.quantity quantity,
          smaller o.quantity quantity positive,
          lt_asym d zero_amount (sub o.quantity quantity),
          sub_add o.quantity quantity,
        ))
    | inr whole ↦ inr (
        ground
          (arith, lt-sub d o.quantity quantity, lt_connected zero_amount (sub o.quantity quantity)))
  ]

  -- FillOrderById on the id of an order that is not `submitted`, a partially filled one for
  -- instance, leaves its row as it is, whatever it returns.
  pub fill_order_by_id-skips :
      (quantity : Amount) (id : String) (o : Order Amount) (s : Session Amount)
      → first_where (has_id id) s.tables.orders ≡ some o
      → is_submitted o.status ≡ false
      → Holds
          (λ x t. first_where (has_id id) t.tables.orders ≡ some o)
          (λ e t. first_where (has_id id) t.tables.orders ≡ some o)
          (fill_order_by_id d quantity id s)
  unfolding fill_order_by_id filled_order
  fill_order_by_id-skips quantity id o s found other =
      Holds-mono _ (write-Holds _ s) (λ e t stopped. ground (arith, stopped.0.tables))
        (λ x t writes. rw writes.0 (
          first_where-kept (has_id id) (can_fill d id) _ s.tables.orders o (λ y. refl) found
            (ground arith)))
