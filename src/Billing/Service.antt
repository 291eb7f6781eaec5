-- ===== src/Billing/Service.antt =====
-- services/billing/wallet.go: opening a wallet, recording a transaction, changing its status, and
-- the snapshot of a wallet. `marshal` is json.Marshal on the extra data of the request.
use mogtrade_engine.Base.{⊤, append_text, true, Option, some, String, if◌then◌else◌, ◌is◌}
use mogtrade_engine.Decimal.{Decimals, NullDecimal}
use mogtrade_engine.Database.Enums.{
  WalletType, wallet_real, wallet_type_eq, TransactionStatus, transaction_status_text,
}
use mogtrade_engine.Database.Rows.{WalletSnapshot}
use mogtrade_engine.Database.Session.{
  Error, no_rows, wallet_already_exists, duplicate_idempotency_key, no_wallet_transaction,
  invalid_transaction_transition, wallet_not_found, division_by_zero, not_json, Query, pure, fail,
  or_fail, on_error, attempted, ◌>>=◌, ◌>>◌,
}
use mogtrade_engine.Database.Wallets as Wallets
use mogtrade_engine.Database.Wallets.{
  create_real_wallet, create_virtual_wallet, create_transaction_ledger_entry,
  find_wallet_snapshot_by_owner_id, find_wallet_transaction_by_id, idempotency_key_exists,
  update_transaction_status_by_id, user_has_wallet, refresh_wallet_snapshots,
}
use mogtrade_engine.Billing.Status.{is_wallet_transaction_transition_valid}

pub record RecordWalletTransactionParams (A Extra : Type 0) : Type 0 where
  pub id : String
  pub src : Option String
  pub dest : Option String
  pub intent : String
  pub extra_data : Extra
  pub idempotency_token : String
  pub done_by : String
  pub tracing_id : String
  pub currency : String
  pub exchange_rate : A
  pub value : A

pub record CreateWalletParams : Type 0 where
  pub owner_id : String
  pub wallet_type : WalletType
  pub id : String

abbrev pub or_wallet_not_found : Error → Error
or_wallet_not_found no_rows = wallet_not_found
or_wallet_not_found e = e

abbrev pub or_no_wallet_transaction : Error → Error
or_no_wallet_transaction no_rows = no_wallet_transaction
or_no_wallet_transaction e = e

abbrev pub status_note : TransactionStatus → TransactionStatus → String
status_note from to = append_text "status changed from \"" (
    append_text (transaction_status_text from)
      (append_text "\" to \"" (append_text (transaction_status_text to) "\"")))

module _ (d : Decimals) where
  open d use {Amount, zero_amount, div, is_zero, string}

  unfoldable pub get_current_wallet_snapshot :
      WalletType → String → Query Amount (WalletSnapshot Amount)
  get_current_wallet_snapshot type owner_id =
      on_error or_wallet_not_found (find_wallet_snapshot_by_owner_id (some owner_id) type)

  -- The error of the update is overwritten by the next call's.
  unfoldable pub update_wallet_transaction_status : String → TransactionStatus → Query Amount ⊤
  update_wallet_transaction_status transaction_id status = do
    tx ← on_error or_no_wallet_transaction (find_wallet_transaction_by_id transaction_id)
    if is_wallet_transaction_transition_valid tx.status status
        then pure tt
        else fail (invalid_transaction_transition tx.status status)
    attempted (update_transaction_status_by_id status transaction_id)
    create_transaction_ledger_entry tx.dest tx.id (status_note tx.status status)
    create_transaction_ledger_entry tx.src tx.id (status_note tx.status status)
    refresh_wallet_snapshots d

  -- Decimal.Div panics on zero.
  abbrev pub divided : Amount → Amount → Query Amount Amount
  divided a b = if is_zero b then fail division_by_zero else pure (div a b)

  abbrev pub value_note : String → String → Amount → String
  value_note sign currency value = append_text sign (append_text currency (string value))

  module _ {Extra : Type 0} (marshal : Extra → Option String) where
    abbrev pub transaction_params :
        RecordWalletTransactionParams Amount Extra
        → String
        → Wallets.RecordWalletTransactionParams Amount
    transaction_params req extra = record {
      id = req.id;
      value = req.value;
      src = req.src;
      dest = req.dest;
      intent = some req.intent;
      extra_data = extra;
      idempotency_token = req.idempotency_token;
      done_by = some req.done_by;
      tracing_id = req.tracing_id;
      currency = some req.currency;
      exchange_rate = req.exchange_rate;
    }

    unfoldable pub record_wallet_transaction :
        RecordWalletTransactionParams Amount Extra → Query Amount ⊤
    record_wallet_transaction req = do
      exists ← idempotency_key_exists req.idempotency_token
      if exists then fail duplicate_idempotency_key else pure tt
      extra ← or_fail (marshal req.extra_data) not_json
      Wallets.record_wallet_transaction (transaction_params req extra)
      out ← divided req.value req.exchange_rate
      create_transaction_ledger_entry req.src req.id (value_note "-" req.currency out)
      in_value ← divided req.value req.exchange_rate
      create_transaction_ledger_entry req.dest req.id (value_note "+" req.currency in_value)
      refresh_wallet_snapshots d

  abbrev pub zero_balance : NullDecimal Amount
  zero_balance = record { decimal = zero_amount; valid = true }

  abbrev pub open_wallet : CreateWalletParams → Query Amount ⊤
  open_wallet req =
      if req.wallet_type is wallet_real
      then create_real_wallet req.id (some req.owner_id) zero_balance
      else create_virtual_wallet req.id (some req.owner_id) zero_balance

  unfoldable pub create_user_wallet : CreateWalletParams → Query Amount ⊤
  create_user_wallet req = do
    exists ← user_has_wallet (some req.owner_id) req.wallet_type
    if exists then fail wallet_already_exists else pure tt
    open_wallet req
    refresh_wallet_snapshots d
