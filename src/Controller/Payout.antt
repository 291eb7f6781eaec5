-- ===== src/Controller/Payout.antt =====
-- app/controller/wallet.go, handleOnExecutionFilled: the transaction that pays the seller of an
-- execution when its event comes in. The system wallets and the generated ids are parameters.
pub mod Tests
use mogtrade_engine.Base.{⊤, ◌≡◌, ◌∙◌, ℕ, true, some, String}
use mogtrade_engine.Decimal.{Decimals}
use mogtrade_engine.Database.Enums.{WalletType, transaction_completed}
use mogtrade_engine.Database.Rows.{Execution, Tables}
use mogtrade_engine.Database.Table.{first_where}
use mogtrade_engine.Database.Session.{Session, Query, Error, ◌>>=◌, ◌>>◌}
use mogtrade_engine.Database.Session.Rules.{Holds, Holds-after, Holds-mono, one-Holds}
use mogtrade_engine.Database.Session.Modes.{Holds-Stays}
use mogtrade_engine.Database.Transaction.{with_transaction, with_transaction-Holds}
use mogtrade_engine.Database.Executions.{executes, find_execution_by_id}
use mogtrade_engine.Billing.Service.{
  RecordWalletTransactionParams, record_wallet_transaction, update_wallet_transaction_status,
}
use mogtrade_engine.Billing.Recording.{IsRecorded, record_wallet_transaction-IsRecorded}
use mogtrade_engine.Billing.Keeping.{record_wallet_transaction-Stays}
use mogtrade_engine.Billing.Changing.{IsChanged, update_wallet_transaction_status-IsChanged}
use mogtrade_engine.Controller.Placing.{no_extra}

pub record PayoutIds : Type 0 where
  pub transaction_id : String
  pub idempotency_token : String
  pub tracing_id : String
  pub system_user : String

module _ (d : Decimals) (system_wallet : WalletType → String) (ids : PayoutIds) where
  open d use {Amount}

  abbrev pub payout_of : Execution Amount → RecordWalletTransactionParams Amount ⊤
  payout_of ex = record {
    id = ids.transaction_id;
    src = some (system_wallet ex.wallets_type);
    dest = ex.ask_wallet;
    intent = "fill payout";
    extra_data = tt;
    idempotency_token = ids.idempotency_token;
    done_by = ids.system_user;
    tracing_id = ids.tracing_id;
    currency = ex.bid_currency;
    exchange_rate = ex.bid_exchange_rate_snapshot;
    value = ex.exec_value;
  }

  unfoldable pub pay_execution : String → Query Amount ⊤
  pay_execution execution_id = do
    ex ← find_execution_by_id execution_id
    record_wallet_transaction d (no_extra d) (payout_of ex)
    update_wallet_transaction_status d ids.transaction_id transaction_completed

  -- One event. Its error is only logged.
  unfoldable pub on_execution_filled : String → Query Amount ⊤
  on_execution_filled execution_id = with_transaction (pay_execution execution_id)

  -- The payout is recorded, from the system's wallet to the seller's and for the value of the
  -- execution, and then completed.
  pub record IsPaid (execution_id : String) (s t : Tables Amount) : Type 0 where
    pub exec : Execution Amount
    pub recorded_at : ℕ
    pub completed_at : ℕ
    pub between : Tables Amount
    pub found : first_where (executes execution_id) s.executions ≡ some exec
    pub recorded :
        IsRecorded d
          (no_extra d)
          (record {
            id = ids.transaction_id;
            src = some (system_wallet exec.wallets_type);
            dest = exec.ask_wallet;
            intent = "fill payout";
            extra_data = tt;
            idempotency_token = ids.idempotency_token;
            done_by = ids.system_user;
            tracing_id = ids.tracing_id;
            currency = exec.bid_currency;
            exchange_rate = exec.bid_exchange_rate_snapshot;
            value = exec.exec_value;
          })
          recorded_at
          s
          between
    pub completed : IsChanged d ids.transaction_id transaction_completed completed_at between t

  abbrev NothingSaid : Error → Session Amount → Type 0
  NothingSaid e t = ⊤

  pay_execution-IsPaid :
      (execution_id : String) (s : Session Amount)
      → s.in_transaction ≡ true
      → Holds
          (λ x t. IsPaid execution_id s.tables t.tables)
          NothingSaid
          (pay_execution execution_id s)
  unfolding pay_execution find_execution_by_id
  pay_execution-IsPaid execution_id s inside =
      Holds-after _ _ (one-Holds (λ t. first_where (executes execution_id) t.executions) s)
        (λ e t h. tt)
        (λ exec t h.
          Holds-after _ _
            (Holds-Stays {E = NothingSaid} true _
              (record_wallet_transaction-IsRecorded d (no_extra d) (payout_of exec) t)
              (record_wallet_transaction-Stays d (no_extra d) (payout_of exec) true t
                (h.0.mode ∙ inside)))
            (λ e u k. tt)
            (λ x u k.
              Holds-mono _
                (update_wallet_transaction_status-IsChanged d ids.transaction_id
                  transaction_completed u k.1)
                (λ e v m. tt)
                (λ y v m. record {
                  exec = exec;
                  recorded_at = t.now;
                  completed_at = u.now;
                  between = u.tables;
                  found = h.1;
                  recorded = rw h.0.tables at k.0;
                  completed = m;
                })))

  -- The handler of an event pays the execution that it names, or changes nothing: paid, the
  -- execution's value is recorded from the system's wallet to the seller's, and that payout is then
  -- completed.
  pub on_execution_filled-IsPaid :
      (execution_id : String) (s : Session Amount)
      → Holds
          (λ x t. IsPaid execution_id s.tables t.tables)
          (λ e t. t.tables ≡ s.tables)
          (on_execution_filled execution_id s)
  unfolding on_execution_filled
  on_execution_filled-IsPaid execution_id s =
      with_transaction-Holds (λ x t. IsPaid execution_id s.tables t) (pay_execution execution_id) s
        (λ from begun. rw (← begun.tables) (pay_execution-IsPaid execution_id from begun.inside))
