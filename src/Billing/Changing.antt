-- ===== src/Billing/Changing.antt =====
-- services/billing/wallet.go: UpdateWalletTransactionStatus inside the transaction of its caller.
use mogtrade_engine.Base.{⊤, ℕ, ◌≡◌, ◌⊎◌, ◌∙◌, true, some, inl, inr, String, Bool-cases}
use mogtrade_engine.Decimal.{Decimals}
use mogtrade_engine.Database.Enums.{TransactionStatus}
use mogtrade_engine.Database.Rows.{Tables, WalletTransaction}
use mogtrade_engine.Database.Table.{first_where, update_where}
use mogtrade_engine.Database.Session.{Session, Error, after, ◌>>◌}
use mogtrade_engine.Database.Session.Rules.{
  Holds, failed, Holds-after, Holds-mono, Holds-handled, Writes, Writes-then, one-Holds,
  write-Holds, dropped-write-Holds, aborted_write-Holds,
}
use mogtrade_engine.Database.Transaction.{with_transaction, with_transaction-Holds}
use mogtrade_engine.Database.Wallets.{
  is_transaction, find_wallet_transaction_by_id, update_transaction_status_by_id,
  create_transaction_ledger_entry, refresh_wallet_snapshots,
}
use mogtrade_engine.Billing.Status.{
  Next, is_wallet_transaction_transition_valid, is_wallet_transaction_transition_valid_iff,
}
use mogtrade_engine.Billing.Service.{
  or_no_wallet_transaction, status_note, update_wallet_transaction_status,
}
use mogtrade_engine.Billing.Recording.{entering, refreshing}

module _ (d : Decimals) (id : String) (status : TransactionStatus) where
  open d use {Amount}

  -- UpdateTransactionStatusById, as a change of the tables.
  abbrev pub setting : ℕ → Tables Amount → Tables Amount
  setting now t = record t {
    transactions =
        update_where (is_transaction id) (λ x. record x { status = status; updated_at = now })
          t.transactions;
  }

  module _ (tx : WalletTransaction Amount) where
    abbrev dest_entered : ℕ → Tables Amount → Tables Amount
    dest_entered now t = entering tx.dest tx.id (status_note tx.status status) now (setting now t)

    abbrev both_entered : ℕ → Tables Amount → Tables Amount
    both_entered now t =
        entering tx.src tx.id (status_note tx.status status) now (dest_entered now t)

    abbrev pub changed : ℕ → Tables Amount → Tables Amount
    changed now t = refreshing d now (both_entered now t)

  -- The transaction is there, its status may change to the new one, and it has changed.
  pub record IsChanged (now : ℕ) (s t : Tables Amount) : Type 0 where
    pub tx : WalletTransaction Amount
    pub found : first_where (is_transaction id) s.transactions ≡ some tx
    pub next : Next tx.status status
    pub tables : t ≡ changed tx now s

  abbrev NothingSaid : Error → Session Amount → Type 0
  NothingSaid e t = ⊤

  module _ (s : Session Amount) (tx : WalletTransaction Amount)
      (found : first_where (is_transaction id) s.tables.transactions ≡ some tx)
      (next : Next tx.status status) where
    enter_both :
        (t : Session Amount)
        → Writes setting s t ⊎ (t.aborted ≡ true)
        → Holds
            (λ x u. IsChanged s.now s.tables u.tables)
            NothingSaid
            (after
              (create_transaction_ledger_entry tx.dest tx.id (status_note tx.status status) t)
              (λ _.
                create_transaction_ledger_entry tx.src tx.id (status_note tx.status status)
                >> refresh_wallet_snapshots d))
    unfolding create_transaction_ledger_entry refresh_wallet_snapshots
    enter_both t (inr aborted) =
        Holds-after _ _ (aborted_write-Holds {F = NothingSaid} _ t aborted (λ e u. tt))
          (λ e u h. tt) (λ x u h. absurd h)
    enter_both t (inl reached) =
        Holds-after _ _ (write-Holds (entering tx.dest tx.id (status_note tx.status status)) t)
          (λ e u h. tt)
          (λ x u dest.
            Holds-after _ _ (write-Holds (entering tx.src tx.id (status_note tx.status status)) u)
              (λ e v h. tt)
              (λ x v src.
                Holds-mono _ (write-Holds (refreshing d) v) (λ e w h. tt)
                  (λ x w refreshed. record {
                    tx = tx;
                    found = found;
                    next = next;
                    tables =
                        (Writes-then (both_entered tx) (refreshing d) s v w
                          (Writes-then (dest_entered tx)
                            (entering tx.src tx.id (status_note tx.status status)) s u v
                            (Writes-then setting
                              (entering tx.dest tx.id (status_note tx.status status)) s t u reached
                              dest)
                            src)
                          refreshed).0;
                  })))

  pub update_wallet_transaction_status-IsChanged :
      (s : Session Amount)
      → s.in_transaction ≡ true
      → Holds
          (λ x t. IsChanged s.now s.tables t.tables)
          NothingSaid
          (update_wallet_transaction_status d id status s)
  unfolding update_wallet_transaction_status find_wallet_transaction_by_id
      update_transaction_status_by_id
  update_wallet_transaction_status-IsChanged s inside =
      Holds-after _ _
        (Holds-handled {F = NothingSaid} or_no_wallet_transaction _
          (one-Holds (λ t. first_where (is_transaction id) t.transactions) s) (λ e t h. tt))
        (λ e t h. tt)
        (λ tx t h. elim (Bool-cases (is_wallet_transaction_transition_valid tx.status status)) [
          | inr invalid ↦ rw invalid (failed tt)
          | inl valid ↦ rw valid (
              Holds-after {F = NothingSaid} _ _
                (dropped-write-Holds {F = NothingSaid} setting t (h.0.mode ∙ inside)) (λ e u k. k)
                (λ x u reached.
                  enter_both s tx h.1
                    ((is_wallet_transaction_transition_valid_iff tx.status status).0 valid) u
                    (rw (h.0.tables, h.0.now) at reached)))
        ])

  -- Inside the transaction of its caller, UpdateWalletTransactionStatus succeeds only on a
  -- transaction that is there and whose status may change to the new one; it then changes that
  -- status, enters the change for both wallets and makes the snapshots again, and changes nothing
  -- else. When it fails, nothing is changed, whichever of its statements fails.
  pub update_wallet_transaction_status-atomic :
      (s : Session Amount)
      → Holds
          (λ x t. IsChanged s.now s.tables t.tables)
          (λ e t. t.tables ≡ s.tables)
          (with_transaction (update_wallet_transaction_status d id status) s)
  update_wallet_transaction_status-atomic s =
      with_transaction-Holds (λ x t. IsChanged s.now s.tables t)
        (update_wallet_transaction_status d id status) s
        (λ from begun.
          rw (← begun.tables, ← begun.now)
            (update_wallet_transaction_status-IsChanged from begun.inside))
