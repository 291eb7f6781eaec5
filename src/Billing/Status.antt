-- ===== src/Billing/Status.antt =====
-- services/billing/wallet.go: which changes of a transaction's status are valid, against a step
-- relation on the statuses.
use mogtrade_engine.Base.{◌≡◌, ◌↔◌, ◌||◌, refl, Bool, true, false, List, [], ◌∷◌, arith, ◌is◌}
use mogtrade_engine.Database.Enums.{
  TransactionStatus, transaction_processing, transaction_failed, transaction_cancelled,
  transaction_completed, transaction_created, transaction_status_eq,
}

unfoldable pub contains : List TransactionStatus → TransactionStatus → Bool
contains [] status = false
contains (x ∷ xs) status = (x is status) || contains xs status

abbrev pub valid_states : TransactionStatus → List TransactionStatus
valid_states transaction_created =
    transaction_processing ∷ transaction_cancelled ∷ transaction_completed ∷ []
valid_states transaction_processing =
    transaction_failed ∷ transaction_cancelled ∷ transaction_completed ∷ []
valid_states transaction_failed = transaction_processing ∷ []
valid_states transaction_cancelled = []
valid_states transaction_completed = []

-- isWalletTransactionTransitionValid on the status of the transaction
unfoldable pub is_wallet_transaction_transition_valid : TransactionStatus → TransactionStatus → Bool
is_wallet_transaction_transition_valid from status = contains (valid_states from) status

-- The life of a transaction.
pub data Next : TransactionStatus → TransactionStatus → Type 0 where
  start : Next transaction_created transaction_processing
  cancel_created : Next transaction_created transaction_cancelled
  complete_created : Next transaction_created transaction_completed
  fail_processing : Next transaction_processing transaction_failed
  cancel_processing : Next transaction_processing transaction_cancelled
  complete_processing : Next transaction_processing transaction_completed
  retry : Next transaction_failed transaction_processing

allowed :
    (from to : TransactionStatus)
    → Next from to
    → is_wallet_transaction_transition_valid from to ≡ true
unfolding is_wallet_transaction_transition_valid contains
allowed from to start = refl
allowed from to cancel_created = refl
allowed from to complete_created = refl
allowed from to fail_processing = refl
allowed from to cancel_processing = refl
allowed from to complete_processing = refl
allowed from to retry = refl

only_allowed :
    (from to : TransactionStatus)
    → is_wallet_transaction_transition_valid from to ≡ true
    → Next from to
unfolding is_wallet_transaction_transition_valid contains
only_allowed transaction_created transaction_processing h = start
only_allowed transaction_created transaction_cancelled h = cancel_created
only_allowed transaction_created transaction_completed h = complete_created
only_allowed transaction_processing transaction_failed h = fail_processing
only_allowed transaction_processing transaction_cancelled h = cancel_processing
only_allowed transaction_processing transaction_completed h = complete_processing
only_allowed transaction_failed transaction_processing h = retry
only_allowed transaction_created transaction_created h = absurd (ground arith)
only_allowed transaction_created transaction_failed h = absurd (ground arith)
only_allowed transaction_processing transaction_created h = absurd (ground arith)
only_allowed transaction_processing transaction_processing h = absurd (ground arith)
only_allowed transaction_failed transaction_created h = absurd (ground arith)
only_allowed transaction_failed transaction_failed h = absurd (ground arith)
only_allowed transaction_failed transaction_cancelled h = absurd (ground arith)
only_allowed transaction_failed transaction_completed h = absurd (ground arith)
only_allowed transaction_cancelled to h = absurd (ground arith)
only_allowed transaction_completed to h = absurd (ground arith)

-- isWalletTransactionTransitionValid accepts exactly the steps of a transaction's life, in which
-- a failed transaction may be tried again, and a cancelled or completed one is at its end.
pub is_wallet_transaction_transition_valid_iff :
    (from to : TransactionStatus)
    → (is_wallet_transaction_transition_valid from to ≡ true) ↔ Next from to
is_wallet_transaction_transition_valid_iff from to = (only_allowed from to, allowed from to)
