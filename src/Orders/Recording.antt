-- ===== src/Orders/Recording.antt =====
-- services/orders/service.go: CreateExecution records one execution for a pair of orders.
use mogtrade_engine.Base.{
  ◌≡◌, ◌∙◌, refl, sym, false, none, some, inl, inr, String, ◌⊎◌, Bool-cases, string_eq,
}
use mogtrade_engine.Decimal.{Decimals}
use mogtrade_engine.Database.Table.{first_where, any_where}
use mogtrade_engine.Database.Session.{
  Session, Error, no_rows, database_failed, Faulty, nil_dereference, on_error, attempted,
}
use mogtrade_engine.Database.Session.Rules.{
  Same, Same-trans, Holds, failed, Holds-after, Holds-mono, Holds-handled, or_fail-Holds,
  dropped-Holds, read-Holds, one-Holds,
}
use mogtrade_engine.Database.Orders.{has_id, find_order_by_id}
use mogtrade_engine.Database.Executions.{pairs, execution_exists}
use mogtrade_engine.Database.Wallets.{source_of, find_wallet_from_wallet_transaction_src}
use mogtrade_engine.Orders.Service.{CreateExecutionParams, or_order_not_found, create_execution}
use mogtrade_engine.Orders.Insertion.{
  is_executed, Recorded, Unchanged, Draws, Draws-Same, Draws-then, insert-Recorded,
}

module _ (d : Decimals) where
  open d use {Amount}

  found_order :
      (id : String) (s t : Session Amount)
      → Same s t
      → Holds
          (λ o u. Same s u × (first_where (has_id id) s.tables.orders ≡ some o))
          (Unchanged d s)
          (on_error or_order_not_found (find_order_by_id id) t)
  unfolding find_order_by_id
  found_order id s t same =
      Holds-handled or_order_not_found _
        (Holds-mono _ (one-Holds (λ x. first_where (has_id id) x.orders) t)
          (λ e u m. m.0.tables ∙ same.tables)
          (λ o u m. (Same-trans s t u same m.0, rw (← same.tables) m.1)))
        (λ e u kept. kept)

  unread :
      (s : Session Amount) (transaction : String) (t : Session Amount)
      → Same s t
      → (e : Error)
      → ((e ≡ database_failed) × Faulty t)
        ⊎ ((e ≡ no_rows) × (source_of t.tables transaction ≡ none))
      → (source_of s.tables transaction ≡ none) ⊎ Faulty s
  unread s transaction t same e (inl broken) = inr (same.faulty broken.1)
  unread s transaction t same e (inr missing) = inl (rw (← same.tables) missing.1)

  source-Same :
      (s : Session Amount) (transaction : String) (t : Session Amount)
      → Same s t
      → Holds
          (λ wallet u. Draws d s transaction wallet u)
          (Unchanged d s)
          (attempted (find_wallet_from_wallet_transaction_src transaction) t)
  unfolding find_wallet_from_wallet_transaction_src
  source-Same s transaction t same =
      dropped-Holds _ (one-Holds (λ x. source_of x transaction) t)
        (λ e u m. m.0.tables ∙ same.tables)
        (λ e u m. (Same-trans s t u same m.0, unread s transaction t same e m.1))
        (λ x u m. (Same-trans s t u same m.0, rw (← same.tables) m.1))

  -- CreateExecution returns without an error only on a pair of orders that had no execution; its
  -- result is then the one execution that it has added, made of the two orders, the wallet that the
  -- bid's transaction draws on and the parameters, or, with nothing changed and the error dropped,
  -- the zero value, only where the id is taken, that wallet is missing or some statement of the
  -- session is not carried out. When it returns an error, nothing is changed.
  pub create_execution-records :
      (p : CreateExecutionParams Amount) (s : Session Amount)
      → Holds
          (λ r t. (is_executed d p s.tables ≡ false) × Recorded d p s r t)
          (Unchanged d s)
          (create_execution d p s)
  unfolding create_execution find_order_by_id find_wallet_from_wallet_transaction_src
      execution_exists
  create_execution-records p s =
      Holds-after _ _ (read-Holds (λ t. any_where (pairs (some p.ask) (some p.bid)) t.executions) s)
        (λ e t h. h.0.tables)
        (λ exists t h. elim (Bool-cases exists) [
          | inl known ↦ rw known (failed h.0.tables)
          | inr new ↦
              let fresh : is_executed d p s.tables ≡ false = sym h.1 ∙ new in
              rw (new, fresh)
                (Holds-after _ _ (found_order p.bid s t h.0) (λ e u k. k)
                  (λ bid u at.
                    Holds-after _ _ (or_fail-Holds bid.bid_transaction nil_dereference u)
                      (λ e v k. rw k.0 at.0.tables)
                      (λ transaction v same.
                        Holds-after {F = Unchanged d s} _ _
                          (source-Same s transaction v (rw (← same.1) at at.0)) (λ e w k. k)
                          (λ wallet w kept.
                            Holds-after _ _
                              (found_order p.ask s w (Draws-Same d s transaction wallet w kept))
                              (λ e x k. k)
                              (λ ask x at_ask.
                                Holds-after _ _ (or_fail-Holds bid.status nil_dereference x)
                                  (λ e y k. rw k.0 at_ask.0.tables)
                                  (λ bid_status y b.
                                    Holds-after _ _ (or_fail-Holds ask.status nil_dereference y)
                                      (λ e z k. rw (k.0, b.1) at_ask.0.tables)
                                      (λ ask_status z a.
                                        Holds-mono _
                                          (insert-Recorded d p s bid ask bid_status ask_status
                                            transaction wallet z fresh
                                            (Draws-then d s transaction wallet w z kept
                                              (rw (a.1, b.1) at_ask.0))
                                            same.0 at.1 at_ask.1 b.0 a.0)
                                          (λ e r k. k) (λ e r k. (refl, k)))))))))
        ])
