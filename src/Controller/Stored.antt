-- ===== src/Controller/Stored.antt =====
-- app/controller/orders.go, handlePlaceOrder: what stands in the tables once the transaction that
-- places an order has been committed.
use mogtrade_engine.Base.{
  ⊤, ◌≡◌, ◌∙◌, refl, ap, true, false, none, some, inl, inr, String, Bool-cases, if◌then◌else◌, ◌&&◌,
  string_eq, ◌is◌,
}
use mogtrade_engine.Decimal.{Decimals}
use mogtrade_engine.Database.Enums.{
  submitted, WalletType, wallet_type_eq, side_buy, side_sell, type_limit, TransactionStatus,
  transaction_completed,
}
use mogtrade_engine.Database.Rows.{WalletSnapshot, Tables}
use mogtrade_engine.Database.Table.{both, first_where}
use mogtrade_engine.Database.Session.{Session, Result, Error, ok, err}
use mogtrade_engine.Database.Session.Rules.{
  Holds, done, failed, Holds-after, Holds-mono, Holds-handled, dropped-Holds, one-Holds,
  write-Holds,
}
use mogtrade_engine.Database.Transaction.{with_transaction, with_transaction-Holds}
use mogtrade_engine.Database.Orders.{attach_bid_transaction_to_order, attach_ask_wallet_to_order}
use mogtrade_engine.Database.Wallets.{
  find_wallet_snapshot_by_owner_id, is_transaction, find_wallet_transaction_by_id,
  update_transaction_status_by_id, create_transaction_ledger_entry, refresh_wallet_snapshots,
}
use mogtrade_engine.Orders.Placing.{is_known, place_order-places}
use mogtrade_engine.Orders.Transitions.{with_status, submit_order-Moves}
use mogtrade_engine.Orders.Risk.{validate_order}
use mogtrade_engine.Billing.Status.{is_wallet_transaction_transition_valid}
use mogtrade_engine.Billing.Service.{
  or_wallet_not_found, get_current_wallet_snapshot, or_no_wallet_transaction,
  update_wallet_transaction_status,
}
use mogtrade_engine.Billing.Recording.{record_wallet_transaction-IsRecorded}
use mogtrade_engine.Controller.Placing.{
  PlaceOrderPayload, RequestIds, order_of, no_extra, charge_of, charge, place,
}
use mogtrade_engine.Controller.Standing.{
  Stands, submitted-Stands, moved-Stands, attached_bid, attached_ask,
}

module _ (d : Decimals) where
  open d use {Amount}

  abbrev NothingSaid : Error → Session Amount → Type 0
  NothingSaid e t = ⊤

  -- UpdateWalletTransactionStatus leaves the orders alone.
  update_status-orders :
      (id : String) (status : TransactionStatus) (s : Session Amount)
      → Holds
          (λ x t. t.tables.orders ≡ s.tables.orders)
          NothingSaid
          (update_wallet_transaction_status d id status s)
  unfolding update_wallet_transaction_status find_wallet_transaction_by_id
      update_transaction_status_by_id create_transaction_ledger_entry refresh_wallet_snapshots
  update_status-orders id status s =
      Holds-after _ _
        (Holds-handled {F = NothingSaid} or_no_wallet_transaction _
          (one-Holds (λ t. first_where (is_transaction id) t.transactions) s) (λ e t h. tt))
        (λ e t h. tt)
        (λ tx t h. elim (Bool-cases (is_wallet_transaction_transition_valid tx.status status)) [
          | inr invalid ↦ rw invalid (failed tt)
          | inl valid ↦ rw valid (
              Holds-after {F = NothingSaid} _ _
                (dropped-Holds {R = λ x u. u.tables.orders ≡ s.tables.orders} {F = NothingSaid} _
                  (write-Holds _ t) (λ e u k. tt)
                  (λ e u k. ap (λ y. y.orders) (k.0.tables ∙ h.0.tables))
                  (λ x u k. ap (λ y. y.orders) k.0 ∙ ap (λ y. y.orders) h.0.tables))
                (λ e u k. tt)
                (λ x u kept.
                  Holds-after _ _ (write-Holds _ u) (λ e v k. tt)
                    (λ y v dest.
                      Holds-after _ _ (write-Holds _ v) (λ e w k. tt)
                        (λ z w src.
                          Holds-mono _ (write-Holds _ w) (λ e q k. tt)
                            (λ a q refreshed.
                              ap (λ y. y.orders) refreshed.0
                              ∙ ap (λ y. y.orders) src.0
                              ∙ ap (λ y. y.orders) dest.0
                              ∙ kept)))))
        ])

  module _ (ids : RequestIds) (p : PlaceOrderPayload Amount) where
    -- A buyer's order has the transaction that pays for it, a seller's the wallet that is paid.
    abbrev pub StandsPaid : String → Tables Amount → Type 0
    StandsPaid wallet t =
        Stands d ids p (if p.side is side_buy then some ids.transaction_id else none)
          (if p.side is side_buy then none else if p.side is side_sell then some wallet else none) t

    charge-StandsPaid :
        (rate : Amount) (wallet system : String) (s : Session Amount)
        → Stands d ids p none none s.tables
        → Holds
            (λ x t. StandsPaid wallet t.tables)
            NothingSaid
            (charge d ids p rate wallet system s)
    unfolding charge attach_bid_transaction_to_order attach_ask_wallet_to_order
    charge-StandsPaid rate wallet system s h = elim (Bool-cases (p.side is side_buy)) [
      | inl buy ↦
          rw (buy, charge)
            (Holds-after _ _
              (record_wallet_transaction-IsRecorded d (no_extra d)
                (charge_of d ids p rate wallet system) s)
              (λ e t k. tt)
              (λ x t recorded.
                Holds-after _ _ (write-Holds _ t) (λ e u k. tt)
                  (λ y u attached.
                    Holds-mono _ (update_status-orders ids.transaction_id transaction_completed u)
                      (λ e v k. tt)
                      (λ z v kept.
                        moved-Stands d ids p (some ids.transaction_id) none u.tables v.tables kept (
                          attached_bid d ids p t.now t.tables u.tables
                            (ap (λ q. q.orders) attached.0)
                            (moved-Stands d ids p none none s.tables t.tables
                              (ap (λ q. q.orders) recorded.tables) h))))))
      | inr no_buy ↦ elim (Bool-cases (p.side is side_sell)) [
        | inl sell ↦
            rw (no_buy, sell, charge)
              (Holds-mono _ (write-Holds _ s) (λ e t k. tt)
                (λ x t attached.
                  attached_ask d ids p wallet s.now s.tables t.tables
                    (ap (λ q. q.orders) attached.0) h))
        | inr neither ↦ rw (no_buy, neither, charge) (done h)
      ]
    ]

    answered :
        (r : Result Amount) (s : Session Amount)
        → Holds (λ x t. (t ≡ s) × (r ≡ ok x)) NothingSaid (r, s)
    answered (ok x) s = done (refl, refl)
    answered (err e) s = failed tt

    -- What a committed transaction of handlePlaceOrder leaves.
    -- The wallet is the one of the user's snapshot of the wallet type that was asked for.
    pub record IsStored (rates : String → Result Amount) (s t : Tables Amount) : Type 0 where
      pub limit : (p.order_type is type_limit) ≡ true
      pub rate : Amount
      pub rated : rates p.currency ≡ ok rate
      pub snapshot : WalletSnapshot Amount
      pub of_user :
          first_where
            (λ n. both n.owner_id (some ids.user) && (n.wallet_type is p.wallet_type))
            s.snapshots
          ≡ some snapshot
      pub new_token : is_known (order_of d ids p rate) s ≡ false
      pub stands : StandsPaid snapshot.wallet_id t

    place-IsStored :
        (rates : String → Result Amount) (system_wallet : WalletType → String) (s : Session Amount)
        → Holds
            (λ x t. IsStored rates s.tables t.tables)
            NothingSaid
            (place d rates system_wallet ids p s)
    unfolding place get_current_wallet_snapshot find_wallet_snapshot_by_owner_id validate_order
    place-IsStored rates system_wallet s =
        Holds-after _ _
          (Holds-handled {F = NothingSaid} or_wallet_not_found _ (one-Holds _ s) (λ e t h. tt))
          (λ e t h. tt)
          (λ wallet t h.
            Holds-after _ _ (answered (rates p.currency) t) (λ e u k. tt)
              (λ rate u same.
                Holds-after _ _ (place_order-places (order_of d ids p rate) u) (λ e v k. tt)
                  (λ x v placed.
                    Holds-after _ _ (submit_order-Moves ids.user ids.order_id v) (λ e w k. tt)
                      (λ y w moved.
                        Holds-mono _
                          (charge-StandsPaid rate wallet.wallet_id
                            (system_wallet wallet.wallet_type) w
                            (submitted-Stands d ids p rate u.now v.now u.tables w.tables placed.1 (
                              moved.1
                              ∙ ap (with_status ids.user ids.order_id submitted v.now) placed.3)))
                          (λ e q k. tt)
                          (λ z q paid. record {
                            limit = placed.0;
                            rate = rate;
                            rated = same.1;
                            snapshot = wallet;
                            of_user = h.1;
                            new_token = rw (← h.0.tables, ← same.0) placed.2;
                            stands = paid;
                          })))))

    pub place-stores :
        (rates : String → Result Amount) (system_wallet : WalletType → String) (s : Session Amount)
        → Holds
            (λ x t. IsStored rates s.tables t.tables)
            (λ e t. t.tables ≡ s.tables)
            (with_transaction (place d rates system_wallet ids p) s)
    place-stores rates system_wallet s =
        with_transaction-Holds (λ x t. IsStored rates s.tables t)
          (place d rates system_wallet ids p) s
          (λ from begun. rw (← begun.tables) (place-IsStored rates system_wallet from))
