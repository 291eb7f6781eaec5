-- ===== src/Controller/Payout/Tests.antt =====
-- handleOnExecutionFilled on an execution that is still pending, which it pays.
use mogtrade_engine.Base.{◌≡◌, refl}
use mogtrade_engine.Decimal.Whole.{whole}
use mogtrade_engine.Base.Int.{ℤ}
use mogtrade_engine.Database.Session.{Session, ok, attempt, read, write, write_unique}
use mogtrade_engine.Database.Session.Rules.{Holds}
use mogtrade_engine.Database.Table.{first_where, any_where, update_where, both}
use mogtrade_engine.Database.Transaction.{with_transaction}
use mogtrade_engine.Database.Executions.{find_execution_by_id}
use mogtrade_engine.Database.Wallets
use mogtrade_engine.Database.Wallets.{
  create_transaction_ledger_entry, refresh_wallet_snapshots, find_wallet_transaction_by_id,
  update_transaction_status_by_id, idempotency_key_exists, transaction_violates,
}
use mogtrade_engine.Billing.Status.{is_wallet_transaction_transition_valid}
use mogtrade_engine.Billing.Service.{record_wallet_transaction, update_wallet_transaction_status}
use mogtrade_engine.Controller.Pending.Tests.{one_pending}
use mogtrade_engine.Controller.Payout.{
  PayoutIds, IsPaid, pay_execution, on_execution_filled, on_execution_filled-IsPaid,
}

abbrev payout_ids : PayoutIds
payout_ids = record {
  transaction_id = "p";
  idempotency_token = "q";
  tracing_id = "t";
  system_user = "system";
}

on_execution_filled-IsPaid_example :
    Holds
      (λ x t. IsPaid whole (λ type. "s") payout_ids "e" one_pending.tables t.tables)
      (λ e t. t.tables ≡ one_pending.tables)
      (on_execution_filled whole (λ type. "s") payout_ids "e" one_pending)
on_execution_filled-IsPaid_example =
    on_execution_filled-IsPaid whole (λ type. "s") payout_ids "e" one_pending

abbrev second_ids : PayoutIds
second_ids = record payout_ids { transaction_id = "p2"; idempotency_token = "q2" }

abbrev paid_once : Session ℤ
paid_once = (on_execution_filled whole (λ type. "s") payout_ids "e" one_pending).1

-- The execution is pending, and is paid; a second event pays it again.
pays :
    ((on_execution_filled whole (λ type. "s") payout_ids "e" one_pending).0 ≡ ok tt)
    × ((on_execution_filled whole (λ type. "s") second_ids "e" paid_once).0 ≡ ok tt)
unfolding on_execution_filled pay_execution with_transaction attempt read find_execution_by_id
    first_where record_wallet_transaction Wallets.record_wallet_transaction idempotency_key_exists
    any_where transaction_violates write_unique create_transaction_ledger_entry write
    refresh_wallet_snapshots update_wallet_transaction_status find_wallet_transaction_by_id
    update_transaction_status_by_id is_wallet_transaction_transition_valid update_where both
    mogtrade_engine.Decimal.Whole.is_equal mogtrade_engine.Billing.Status.contains
pays = (refl, refl)
