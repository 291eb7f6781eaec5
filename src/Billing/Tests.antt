-- ===== src/Billing/Tests.antt =====
-- The billing service on a small database of whole numbers, and the theorems at work on it.
use mogtrade_engine.Base.{◌≡◌, ◌⊎◌, refl, true, false, Option, some, String, [], ◌∷◌, string_eq}
use mogtrade_engine.Base.Int.{ℤ, pos, ◌+ℤ◌, ◌-ℤ◌}
use mogtrade_engine.Decimal.Whole.{whole}
use mogtrade_engine.Database.Enums.{
  TransactionStatus, transaction_created, transaction_processing, transaction_completed,
  transaction_failed, transaction_cancelled, wallet_real, wallet_virtual,
}
use mogtrade_engine.Database.Rows.{Wallet, WalletTransaction}
use mogtrade_engine.Database.Session.{Session}
use mogtrade_engine.Database.Session.Rules.{Holds}
use mogtrade_engine.Database.Transaction.{with_transaction}
use mogtrade_engine.Billing.Service.{
  RecordWalletTransactionParams, CreateWalletParams, record_wallet_transaction,
  update_wallet_transaction_status, create_user_wallet,
}
use mogtrade_engine.Billing.Recording.{IsRecorded, refreshing, record_wallet_transaction-atomic}
use mogtrade_engine.Billing.Changing.{IsChanged, update_wallet_transaction_status-atomic}
use mogtrade_engine.Billing.Opening.{has_wallet, opening, create_user_wallet-atomic}
use mogtrade_engine.Billing.Balances.{moved, moved-by_status}

abbrev wallet_of : String → Wallet ℤ
wallet_of id = record {
  id = id;
  owner = some id;
  starting_balance = record { decimal = pos 100; valid = true };
  wallet_type = wallet_virtual;
}

abbrev transfer : TransactionStatus → WalletTransaction ℤ
transfer status = record {
  id = "x";
  value = pos 30;
  src = some "a";
  dest = some "b";
  intent = some "buy";
  recorded_at = 1;
  updated_at = 1;
  extra_data = "{}";
  idempotency_token = "x";
  done_by = some "a";
  tracing_id = "t";
  currency = some "XAF";
  exchange_rate = pos 1;
  status = status;
}

abbrev start : Session ℤ
start = record {
  tables = record {
    orders = [];
    executions = [];
    wallets = wallet_of "a" ∷ wallet_of "b" ∷ [];
    transactions = transfer transaction_created ∷ [];
    entries = [];
    snapshots = [];
    kycs = [];
    users = [];
    accounts = [];
    refresh_tokens = [];
    verifications = [];
  };
  now = 7;
  faults = [];
  in_transaction = false;
  aborted = false;
}

abbrev request : RecordWalletTransactionParams ℤ String
request = record {
  id = "y";
  src = some "a";
  dest = some "b";
  intent = "sell";
  extra_data = "{}";
  idempotency_token = "y";
  done_by = "a";
  tracing_id = "t";
  currency = "XAF";
  exchange_rate = pos 2;
  value = pos 10;
}

-- Extra data that is a text of JSON already.
abbrev as_text : String → Option String
as_text s = some s

record_wallet_transaction-atomic_example :
    Holds
      (λ x t. IsRecorded whole as_text request start.now start.tables t.tables)
      (λ e t. t.tables ≡ start.tables)
      (with_transaction (record_wallet_transaction whole as_text request) start)
record_wallet_transaction-atomic_example =
    record_wallet_transaction-atomic whole as_text request start

update_wallet_transaction_status-atomic_example :
    Holds
      (λ x t. IsChanged whole "x" transaction_completed start.now start.tables t.tables)
      (λ e t. t.tables ≡ start.tables)
      (with_transaction (update_wallet_transaction_status whole "x" transaction_completed) start)
update_wallet_transaction_status-atomic_example =
    update_wallet_transaction_status-atomic whole "x" transaction_completed start

abbrev new_wallet : CreateWalletParams
new_wallet = record { owner_id = "c"; wallet_type = wallet_real; id = "c" }

wallet_opened :
    Holds
      (λ x t.
        (has_wallet whole new_wallet start.tables ≡ false)
        × (t.tables ≡ refreshing whole start.now (opening whole new_wallet start.now start.tables)))
      (λ e t. t.tables ≡ start.tables)
      (with_transaction (create_user_wallet whole new_wallet) start)
wallet_opened = create_user_wallet-atomic whole new_wallet start

balances_moved :
    (((transaction_completed ≡ transaction_created)
        ⊎ (transaction_completed ≡ transaction_processing))
      × (moved whole (transfer transaction_completed) "a" ≡ pos 0 -ℤ pos 30)
      × (moved whole (transfer transaction_completed) "b" ≡ pos 0))
    ⊎ (((transaction_completed ≡ transaction_completed)
          × (moved whole (transfer transaction_completed) "a"
                +ℤ moved whole (transfer transaction_completed) "b"
              ≡ pos 0)
          × (moved whole (transfer transaction_completed) "b" ≡ pos 30))
        ⊎ (((transaction_completed ≡ transaction_failed)
              ⊎ (transaction_completed ≡ transaction_cancelled))
            × (moved whole (transfer transaction_completed) "a" ≡ pos 0)
            × (moved whole (transfer transaction_completed) "b" ≡ pos 0)))
balances_moved = moved-by_status whole (transfer transaction_completed) "a" "b" refl refl refl
