-- ===== src/Billing/Keeping.antt =====
-- services/billing/wallet.go: RecordWalletTransaction stays in the transaction of its caller.
use mogtrade_engine.Base.{
  ◌≡◌, Bool, true, false, Option, String, Bool-cases, inl, inr, if◌then◌else◌,
}
use mogtrade_engine.Decimal.{Decimals}
use mogtrade_engine.Database.Session.{
  Session, Error, duplicate_idempotency_key, not_json, pure, fail,
}
use mogtrade_engine.Database.Session.Rules.{done, failed}
use mogtrade_engine.Database.Session.Modes.{
  Stays, after-Stays, read-Stays, write-Stays, write_unique-Stays, or_fail-Stays,
}
use mogtrade_engine.Database.Wallets as Wallets
use mogtrade_engine.Database.Wallets.{
  idempotency_key_exists, create_transaction_ledger_entry, refresh_wallet_snapshots,
}
use mogtrade_engine.Billing.Service.{
  RecordWalletTransactionParams, record_wallet_transaction, divided,
}

tested-Stays :
    {A : Type 0} (refused : Bool) (e : Error) (b : Bool) (s : Session A)
    → s.in_transaction ≡ b
    → Stays b ((if refused then fail e else pure tt) s)
tested-Stays true e b s h = failed h
tested-Stays false e b s h = done h

module _ (d : Decimals) {Extra : Type 0} (marshal : Extra → Option String) where
  open d use {Amount, is_zero}

  divided-Stays :
      (x y : Amount) (b : Bool) (s : Session Amount)
      → s.in_transaction ≡ b
      → Stays b (divided d x y s)
  divided-Stays x y b s h = elim (Bool-cases (is_zero y)) [
    | inl zero ↦ rw zero (failed h)
    | inr fits ↦ rw fits (done h)
  ]

  pub record_wallet_transaction-Stays :
      (req : RecordWalletTransactionParams Amount Extra) (b : Bool) (s : Session Amount)
      → s.in_transaction ≡ b
      → Stays b (record_wallet_transaction d marshal req s)
  unfolding record_wallet_transaction idempotency_key_exists Wallets.record_wallet_transaction
      create_transaction_ledger_entry refresh_wallet_snapshots
  record_wallet_transaction-Stays req b s h = after-Stays b _ _ (read-Stays _ b s h) (λ exists t k.
      after-Stays b _ _ (tested-Stays exists duplicate_idempotency_key b t k) (λ x t k.
        after-Stays b _ _ (or_fail-Stays (marshal req.extra_data) not_json b t k) (λ extra t k.
          after-Stays b _ _ (write_unique-Stays _ _ b t k) (λ x t k.
            after-Stays b _ _ (divided-Stays req.value req.exchange_rate b t k) (λ out t k.
              after-Stays b _ _ (write-Stays _ b t k) (λ x t k.
                after-Stays b _ _ (divided-Stays req.value req.exchange_rate b t k) (λ v t k.
                  after-Stays b _ _ (write-Stays _ b t k) (λ x t k. write-Stays _ b t k))))))))
