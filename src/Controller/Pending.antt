-- ===== src/Controller/Pending.antt =====
-- app/controller/orders.go, applyPendingFills: at the start, the executions that were recorded and
-- not yet applied are read in pages and applied, all in one transaction. The ids that were applied
-- are gathered outside it, and an event is published for each. The loop runs on fuel, one more
-- than the executions of the table.
pub mod Batches
pub mod Settling
pub mod Tests
use mogtrade_engine.Base.{
  ⊤, ℕ, suc, zero, Option, none, some, String, List, [], ◌∷◌, ◌++◌, length, if◌then◌else◌,
}
use mogtrade_engine.Decimal.{Decimals}
use mogtrade_engine.Database.TextOrder.{TextOrder}
use mogtrade_engine.Database.Choosing.{last_of}
use mogtrade_engine.Database.Session.{Session, Result, ok, err, database_failed, attempt}
use mogtrade_engine.Database.Transaction.{begun, with_transaction}
use mogtrade_engine.Database.Listing.{lookup_pending_executions}
use mogtrade_engine.Orders.Service.{apply_execution_fill}
use mogtrade_engine.Controller.Reloading.{first_cursor, batch_size}

module _ (d : Decimals) where
  open d use {Amount}

  -- The ids that are gathered, and how the handler ends; nothing when the fuel is used up.
  abbrev pub Fills : Type 0
  Fills = Option (List String × (Result ⊤ × Session Amount))

  abbrev pub Next : Type 0
  Next = List String → Session Amount → Fills

  unfoldable pub filled_one : Next → List String → String → Result ⊤ × Session Amount → Fills
  filled_one next filled id (ok x, t) = next (filled ++ id ∷ []) t
  filled_one next filled id (err e, t) = some (filled, (err e, t))

  unfoldable pub fill_batch : Next → List String → Next
  fill_batch next [] filled s = next filled s
  fill_batch next (id ∷ ids) filled s =
      filled_one (fill_batch next ids) filled id (apply_execution_fill d id s)

  unfoldable pub page_filled :
      (String → Next) → List String → Result (List String) × Session Amount → Fills
  page_filled next filled (err e, t) = some (filled, (err e, t))
  page_filled next filled (ok [], t) = some (filled, (ok tt, t))
  page_filled next filled (ok (id ∷ ids), t) =
      fill_batch (next (last_of id ids)) (id ∷ ids) filled t

  unfoldable pub captured : Session Amount → Fills → Fills
  captured s none = none
  captured s (some (filled, r)) = some (filled, with_transaction (λ t. r) s)

  -- A transaction whose handler changes a variable outside it.
  unfoldable pub with_captured : Next → Session Amount → Fills
  with_captured handler s =
      let (began, t) = attempt s in
      if began then captured s (handler [] (begun t)) else some ([], (err database_failed, t))

  module _ (o : TextOrder) where
    unfoldable pub fill_pages : ℕ → ℕ → String → Next
    fill_pages zero limit cursor filled s = none
    fill_pages (suc fuel) limit cursor filled s =
        page_filled (fill_pages fuel limit) filled (lookup_pending_executions o cursor limit s)

    -- The ids for which an event is published, and how the transaction ends.
    unfoldable pub apply_pending_fills : Session Amount → Fills
    apply_pending_fills s =
        with_captured (fill_pages (suc (length s.tables.executions)) batch_size first_cursor) s
