-- ===== src/Controller/Balance.antt =====
-- app/controller/wallet.go: handleGetBalance, which opens the wallets of a user who has none, and
-- createUserWallets. The rate and the ids are parameters; `none` stands for no rate, on which the
-- source panics, and that is answered as an error is.
pub mod Tests
use mogtrade_engine.Base.{
  ⊤, ◌≡◌, ◌⊎◌, arith, ◌∙◌, refl, sym, ℕ, Bool, true, false, inl, inr, Option, some, none, String,
  Bool-cases, if◌then◌else◌, ◌&&◌, ◌is◌, string_eq,
}
use mogtrade_engine.Decimal.{Decimals}
use mogtrade_engine.Database.Enums.{
  WalletType, wallet_real, wallet_virtual, wallet_type_eq, transaction_completed,
}
use mogtrade_engine.Database.Rows.{WalletSnapshot, Tables}
use mogtrade_engine.Database.Table.{both, first_where, any_where}
use mogtrade_engine.Database.Session.{
  Faulty, Session, Query, Result, Error, ok, err, no_rows, database_failed, wallet_not_found,
  wallet_already_exists, other_error, or_fail, ◌>>=◌, ◌>>◌,
}
use mogtrade_engine.Database.Session.Rules.{
  Holds, Same, Missing, Holds-mono, Holds-handled, done, failed, one-Holds, read-Holds,
}
use mogtrade_engine.Database.Transaction.{with_unchecked_commit}
use mogtrade_engine.Database.Auth.{user_exists_with_id}
use mogtrade_engine.Database.Wallets.{find_wallet_snapshot_by_owner_id}
use mogtrade_engine.Billing.Service.{
  RecordWalletTransactionParams, or_wallet_not_found, get_current_wallet_snapshot,
  create_user_wallet, record_wallet_transaction, update_wallet_transaction_status,
}
use mogtrade_engine.Controller.Placing.{no_extra}

pub record WalletIds : Type 0 where
  pub real_id : String
  pub virtual_id : String
  pub transaction_id : String
  pub idempotency_token : String
  pub tracing_id : String

-- httppayloads.WalletSnapshot
pub record WalletPayload (A : Type 0) : Type 0 where
  pub balance : A
  pub id : String
  pub total_transactions : ℕ
  pub last_activity_at : Option ℕ

-- The answers of the handler: 200, 404 and 500.
pub data BalanceResponse (A : Type 0) : Type 0 where
  balance_is : WalletPayload A → BalanceResponse A
  no_wallet : BalanceResponse A
  balance_failed : BalanceResponse A

-- errors.Is(err, billing.ErrWalletNotFound)
abbrev pub is_wallet_not_found : Error → Bool
is_wallet_not_found wallet_not_found = true
is_wallet_not_found e = false

-- errors.Is(err, billing.ErrWalletAlreadyExists)
abbrev pub is_wallet_already_exists : Error → Bool
is_wallet_already_exists wallet_already_exists = true
is_wallet_already_exists e = false

module _ {A : Type 0} where
  unfoldable pub wallet_snapshot_payload : WalletSnapshot A → WalletPayload A
  wallet_snapshot_payload n = record {
    balance = n.current_balance;
    id = n.wallet_id;
    total_transactions = n.total_transactions;
    last_activity_at = n.last_activity_at;
  }

  -- A wallet that is there already is no error.
  abbrev pub tolerated : Result ⊤ × Session A → Result ⊤ × Session A
  tolerated (ok x, t) = (ok x, t)
  tolerated (err e, t) = if is_wallet_already_exists e then (ok tt, t) else (err e, t)

module _ (d : Decimals) (rate : Option (Decimals.Amount d)) (starting_balance : Decimals.Amount d)
    (ids : WalletIds) (user : String) where
  open d use {Amount, mul}

  abbrev pub deposit_of : Amount → RecordWalletTransactionParams Amount ⊤
  deposit_of usd = record {
    id = ids.transaction_id;
    src = none;
    dest = some ids.virtual_id;
    intent = "Initial deposit";
    extra_data = tt;
    idempotency_token = ids.idempotency_token;
    done_by = user;
    tracing_id = ids.tracing_id;
    currency = "USD";
    exchange_rate = usd;
    value = mul starting_balance usd;
  }

  abbrev pub ensure_wallet : WalletType → String → Query Amount ⊤
  ensure_wallet type id s =
      tolerated (create_user_wallet d (record { owner_id = user; wallet_type = type; id = id }) s)

  abbrev pub open_wallets : Query Amount ⊤
  open_wallets = do
    ensure_wallet wallet_real ids.real_id
    ensure_wallet wallet_virtual ids.virtual_id
    usd ← or_fail rate (other_error "index out of range")
    record_wallet_transaction d (no_extra d) (deposit_of usd)
    update_wallet_transaction_status d ids.transaction_id transaction_completed

  unfoldable pub create_user_wallets : Query Amount ⊤
  create_user_wallets = with_unchecked_commit open_wallets

  abbrev Answer : Type 0
  Answer = BalanceResponse Amount × Session Amount

  abbrev pub shown : Result (WalletSnapshot Amount) × Session Amount → Answer
  shown (ok n, t) = (balance_is (wallet_snapshot_payload n), t)
  shown (err e, t) = (balance_failed, t)

  abbrev pub after_opening : WalletType → Result ⊤ × Session Amount → Answer
  after_opening type (ok x, t) = shown (get_current_wallet_snapshot d type user t)
  after_opening type (err e, t) = (balance_failed, t)

  abbrev pub for_missing : WalletType → Result Bool × Session Amount → Answer
  for_missing type (ok exists, t) =
      if exists then after_opening type (create_user_wallets t) else (no_wallet, t)
  for_missing type (err e, t) = (balance_failed, t)

  abbrev pub balance_answer : WalletType → Result (WalletSnapshot Amount) × Session Amount → Answer
  balance_answer type (ok n, t) = (balance_is (wallet_snapshot_payload n), t)
  balance_answer type (err e, t) =
      if is_wallet_not_found e
      then for_missing type (user_exists_with_id user t)
      else (balance_failed, t)

  unfoldable pub handle_get_balance : WalletType → Session Amount → Answer
  handle_get_balance type s = balance_answer type (get_current_wallet_snapshot d type user s)

  abbrev pub snapshot_of_user : WalletType → Tables Amount → Option (WalletSnapshot Amount)
  snapshot_of_user type t =
      first_where (λ n. both n.owner_id (some user) && (n.wallet_type is type)) t.snapshots

  -- A balance that is shown is that of the user's snapshot in the tables as they then are; a wallet
  -- is missing only where there was no snapshot and no user, and then nothing has changed.
  pub data Shows (type : WalletType) (s : Session Amount) : Answer → Type 0 where
    shows :
        (n : WalletSnapshot Amount) (t : Session Amount)
        → snapshot_of_user type t.tables ≡ some n
        → Shows type s (balance_is (wallet_snapshot_payload n), t)
    misses :
        (t : Session Amount)
        → t.tables ≡ s.tables
        → snapshot_of_user type s.tables ≡ none
        → any_where (λ u. u.id is user) s.tables.users ≡ false
        → Shows type s (no_wallet, t)
    fails : (t : Session Amount) → Shows type s (balance_failed, t)

  abbrev Absent : WalletType → Session Amount → Error → Session Amount → Type 0
  Absent type s e t =
      (t.tables ≡ s.tables)
      × ((is_wallet_not_found e ≡ false) ⊎ (snapshot_of_user type s.tables ≡ none))

  absent_by :
      (type : WalletType) (s t : Session Amount) (e : Error)
      → ((e ≡ database_failed) × Faulty s)
        ⊎ ((e ≡ no_rows) × (snapshot_of_user type s.tables ≡ none))
      → (is_wallet_not_found (or_wallet_not_found e) ≡ false)
        ⊎ (snapshot_of_user type s.tables ≡ none)
  absent_by type s t e (inl broken) = rw broken.0 (inl refl)
  absent_by type s t e (inr missing) = inr missing.1

  get_current_wallet_snapshot-Holds :
      (type : WalletType) (s : Session Amount)
      → Holds
          (λ n t. (t.tables ≡ s.tables) × (snapshot_of_user type s.tables ≡ some n))
          (Absent type s)
          (get_current_wallet_snapshot d type user s)
  unfolding get_current_wallet_snapshot find_wallet_snapshot_by_owner_id
  get_current_wallet_snapshot-Holds type s =
      Holds-handled or_wallet_not_found _
        (Holds-mono {F = Missing (snapshot_of_user type) s} _ (one-Holds (snapshot_of_user type) s)
          (λ e t h. h) (λ n t h. (h.0.tables, h.1)))
        (λ e t h. (h.0.tables, absent_by type s t e h.1))

  shown-Shows :
      (type : WalletType) (s t : Session Amount)
      (r : Result (WalletSnapshot Amount) × Session Amount)
      → Holds
          (λ n u. (u.tables ≡ t.tables) × (snapshot_of_user type t.tables ≡ some n))
          (Absent type t)
          r
      → Shows type s (shown r)
  shown-Shows type s t (ok n, u) (done h) = shows n u (rw h.0 h.1)
  shown-Shows type s t (err e, u) (failed h) = fails u

  after_opening-Shows :
      (type : WalletType) (s : Session Amount) (r : Result ⊤ × Session Amount)
      → Shows type s (after_opening type r)
  after_opening-Shows type s (ok x, t) =
      shown-Shows type s t _ (get_current_wallet_snapshot-Holds type t)
  after_opening-Shows type s (err e, t) = fails t

  for_missing-Shows :
      (type : WalletType) (s t : Session Amount) (r : Result Bool × Session Amount)
      → snapshot_of_user type s.tables ≡ none
      → t.tables ≡ s.tables
      → Holds
          (λ exists u. Same t u × (exists ≡ any_where (λ u. u.id is user) t.tables.users))
          (λ e u. ⊤)
          r
      → Shows type s (for_missing type r)
  for_missing-Shows type s t (err e, u) missing same (failed h) = fails u
  for_missing-Shows type s t (ok exists, u) missing same (done h) = elim (Bool-cases exists) [
    | inl there ↦ rw there (after_opening-Shows type s (create_user_wallets u))
    | inr stranger ↦
        rw stranger (misses u (h.0.tables ∙ same) missing (rw same at (sym h.1 ∙ stranger)))
  ]

  balance_answer-Shows :
      (type : WalletType) (s : Session Amount) (r : Result (WalletSnapshot Amount) × Session Amount)
      → Holds
          (λ n t. (t.tables ≡ s.tables) × (snapshot_of_user type s.tables ≡ some n))
          (Absent type s)
          r
      → Shows type s (balance_answer type r)
  unfolding user_exists_with_id
  balance_answer-Shows type s (ok n, t) (done h) = shows n t (rw h.0 h.1)
  balance_answer-Shows type s (err e, t) (failed h) = elim (Bool-cases (is_wallet_not_found e)) [
    | inr other ↦ rw other (fails t)
    | inl missing ↦ elim h.1 [
      | inl other ↦ absurd (ground (arith, missing, other))
      | inr absent ↦ rw missing (
          for_missing-Shows type s t _ absent h.0 (
            Holds-mono _ (read-Holds (λ t. any_where (λ u. u.id is user) t.users) t) (λ e u k. tt)
              (λ exists u k. k)))
    ]
  ]

  -- A balance that the handler shows is that of the user's snapshot, in the tables as they then
  -- are; it answers that there is no wallet only where there is no snapshot and no such user, and
  -- then it has changed nothing.
  pub handle_get_balance-Shows :
      (type : WalletType) (s : Session Amount) → Shows type s (handle_get_balance type s)
  unfolding handle_get_balance
  handle_get_balance-Shows type s =
      balance_answer-Shows type s _ (get_current_wallet_snapshot-Holds type s)
