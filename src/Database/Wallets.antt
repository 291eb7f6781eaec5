-- ===== src/Database/Wallets.antt =====
-- infra/db/wallet.sql.go: the queries on wallets, their transactions, the ledger and the
-- snapshots. The view wallet_snapshots is the one of migration 000044.
use mathlib.Core.Option
use mogtrade_engine.Base.{
  ◌+◌, ◌&&◌, ◌||◌, ⊤, ℕ, Bool, Option, none, some, String, List, [], ◌∷◌, ◌++◌, map, if◌then◌else◌,
  ltb, string_eq, ◌is◌,
}
use mogtrade_engine.Decimal.{Decimals, NullDecimal}
use mogtrade_engine.Database.Enums.{
  WalletType, wallet_real, wallet_virtual, wallet_type_eq, TransactionStatus, transaction_completed,
  transaction_created, transaction_processing, transaction_status_eq,
}
use mogtrade_engine.Database.Rows.{Wallet, WalletSnapshot, WalletTransaction, Tables}
use mogtrade_engine.Database.Table.{both, first_where, any_where, update_where}
use mogtrade_engine.Database.Session.{Query, read, write, write_unique, one}

pub record RecordWalletTransactionParams (A : Type 0) : Type 0 where
  pub id : String
  pub value : A
  pub src : Option String
  pub dest : Option String
  pub intent : Option String
  pub extra_data : String
  pub idempotency_token : String
  pub done_by : Option String
  pub tracing_id : String
  pub currency : Option String
  pub exchange_rate : A

module _ {A : Type 0} where
  abbrev pub recorded_transaction : ℕ → RecordWalletTransactionParams A → WalletTransaction A
  recorded_transaction now p = record {
    id = p.id;
    value = p.value;
    src = p.src;
    dest = p.dest;
    intent = p.intent;
    recorded_at = now;
    updated_at = now;
    extra_data = p.extra_data;
    idempotency_token = p.idempotency_token;
    done_by = p.done_by;
    tracing_id = p.tracing_id;
    currency = p.currency;
    exchange_rate = p.exchange_rate;
    status = transaction_created;
  }

  abbrev pub is_wallet : String → Wallet A → Bool
  is_wallet id w = w.id is id

  abbrev pub belongs : Option String → WalletType → Wallet A → Bool
  belongs owner type w = both w.owner owner && (w.wallet_type is type)

  unfoldable pub wallet_violates : String → Option String → WalletType → Tables A → Option String
  wallet_violates id owner type t =
      if any_where (is_wallet id) t.wallets
      then some "wallets_pkey"
      else if any_where (belongs owner type) t.wallets
      then some "wallets_owner_type_uidx"
      else none

  abbrev insert_wallet : String → Option String → NullDecimal A → WalletType → Query A ⊤
  insert_wallet id owner starting_balance type =
      write_unique (wallet_violates id owner type) (λ now t. record t {
        wallets =
            t.wallets
            ++ record {
              id = id;
              owner = owner;
              starting_balance = starting_balance;
              wallet_type = type;
            }
              ∷ [];
      })

  unfoldable pub create_real_wallet : String → Option String → NullDecimal A → Query A ⊤
  create_real_wallet id owner starting_balance = insert_wallet id owner starting_balance wallet_real

  unfoldable pub create_virtual_wallet : String → Option String → NullDecimal A → Query A ⊤
  create_virtual_wallet id owner starting_balance =
      insert_wallet id owner starting_balance wallet_virtual

  unfoldable pub create_transaction_ledger_entry : Option String → String → String → Query A ⊤
  create_transaction_ledger_entry wallet transaction notes = write (λ now t. record t {
    entries =
        t.entries
        ++ record { wallet = wallet; transaction = transaction; notes = notes; recorded_at = now }
          ∷ [];
  })

  abbrev pub is_transaction : String → WalletTransaction A → Bool
  is_transaction id x = x.id is id

  abbrev pub uses_token : String → WalletTransaction A → Bool
  uses_token token x = x.idempotency_token is token

  -- A wallet is found by its key, so the join has at most one row.
  abbrev pub source_of : Tables A → String → Option (Wallet A)
  source_of t id = elim (first_where (is_transaction id) t.transactions) [
    | none ↦ none
    | some x ↦ first_where (λ w. both x.src (some w.id)) t.wallets
  ]

  unfoldable pub find_wallet_from_wallet_transaction_src : String → Query A (Wallet A)
  find_wallet_from_wallet_transaction_src id s = one (read (λ t. source_of t id) s)

  -- infra/db/orders.sql.go: the type of the wallet that an order's bid transaction draws on.
  abbrev pub wallet_type_of : Tables A → String → Option WalletType
  wallet_type_of t id = elim (first_where (λ o. o.id is id) t.orders) [
    | none ↦ none
    | some o ↦ elim o.bid_transaction [
      | none ↦ none
      | some transaction ↦ Option.map (λ w. w.wallet_type) (source_of t transaction)
    ]
  ]

  unfoldable pub get_order_wallet_type : String → Query A WalletType
  get_order_wallet_type id s = one (read (λ t. wallet_type_of t id) s)

  unfoldable pub find_wallet_snapshot_by_owner_id :
      Option String → WalletType → Query A (WalletSnapshot A)
  find_wallet_snapshot_by_owner_id owner type s = one (
      read (λ t. first_where (λ n. both n.owner_id owner && (n.wallet_type is type)) t.snapshots) s)

  unfoldable pub find_wallet_transaction_by_id : String → Query A (WalletTransaction A)
  find_wallet_transaction_by_id id s =
      one (read (λ t. first_where (is_transaction id) t.transactions) s)

  unfoldable pub idempotency_key_exists : String → Query A Bool
  idempotency_key_exists token = read (λ t. any_where (uses_token token) t.transactions)

  unfoldable pub transaction_violates : RecordWalletTransactionParams A → Tables A → Option String
  transaction_violates p t =
      if any_where (is_transaction p.id) t.transactions
      then some "wallet_transactions_pkey"
      else if any_where (uses_token p.idempotency_token) t.transactions
      then some "wallet_transactions_idempotency_token_uidx"
      else none

  unfoldable pub record_wallet_transaction : RecordWalletTransactionParams A → Query A ⊤
  record_wallet_transaction p =
      write_unique (transaction_violates p)
        (λ now t. record t { transactions = t.transactions ++ recorded_transaction now p ∷ [] })

  unfoldable pub update_transaction_status_by_id : TransactionStatus → String → Query A ⊤
  update_transaction_status_by_id status id = write (λ now t. record t {
    transactions =
        update_where (is_transaction id) (λ x. record x { status = status; updated_at = now })
          t.transactions;
  })

  unfoldable pub user_has_wallet : Option String → WalletType → Query A Bool
  user_has_wallet owner type = read (λ t. any_where (belongs owner type) t.wallets)

-- The materialised view.
module _ (d : Decimals) where
  open d use {Amount, zero_amount, add, neg}

  abbrev is_held : TransactionStatus → Bool
  is_held status =
      (status is transaction_completed)
      || (status is transaction_created)
      || (status is transaction_processing)

  -- What a transaction takes from a wallet, and what it gives to it.
  unfoldable pub outgoing : String → WalletTransaction Amount → Amount
  outgoing id x = if both x.src (some id) && is_held x.status then neg x.value else zero_amount

  unfoldable pub incoming : String → WalletTransaction Amount → Amount
  incoming id x =
      if both x.dest (some id) && (x.status is transaction_completed) then x.value else zero_amount

  unfoldable pub net_change : String → List (WalletTransaction Amount) → Amount
  net_change id [] = zero_amount
  net_change id (x ∷ xs) = add (add (outgoing id x) (incoming id x)) (net_change id xs)

  unfoldable pub transaction_count : String → List (WalletTransaction Amount) → ℕ
  transaction_count id [] = 0
  transaction_count id (x ∷ xs) =
      (if both x.src (some id) then 1 else 0)
      + (if both x.dest (some id) && (x.status is transaction_completed) then 1 else 0)
      + transaction_count id xs

  abbrev later : ℕ → Option ℕ → Option ℕ
  later at none = some at
  later at (some other) = some (if ltb at other then other else at)

  unfoldable pub last_activity : String → List (WalletTransaction Amount) → Option ℕ
  last_activity id [] = none
  last_activity id (x ∷ xs) =
      let rest = last_activity id xs in
      if both x.src (some id) || both x.dest (some id) then later x.recorded_at rest else rest

  abbrev pub starting : Wallet Amount → Amount
  starting w = if w.starting_balance.valid then w.starting_balance.decimal else zero_amount

  unfoldable pub snapshot_of :
      ℕ → List (WalletTransaction Amount) → Wallet Amount → WalletSnapshot Amount
  snapshot_of now xs w = record {
    wallet_id = w.id;
    owner_id = w.owner;
    starting_balance = starting w;
    current_balance = add (starting w) (net_change w.id xs);
    total_transactions = transaction_count w.id xs;
    last_activity_at = last_activity w.id xs;
    snapshot_created_at = now;
    wallet_type = w.wallet_type;
  }

  unfoldable pub refresh_wallet_snapshots : Query Amount ⊤
  refresh_wallet_snapshots =
      write (λ now t. record t { snapshots = map (snapshot_of now t.transactions) t.wallets })
