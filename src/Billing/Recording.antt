-- ===== src/Billing/Recording.antt =====
-- services/billing/wallet.go: RecordWalletTransaction inside the transaction of its caller.
use mogtrade_engine.Base.{
  ⊤, ℕ, ◌≡◌, ◌∙◌, refl, sym, false, Option, some, inl, inr, String, [], ◌∷◌, ◌++◌, map, Bool-cases,
}
use mogtrade_engine.Decimal.{Decimals}
use mogtrade_engine.Database.Rows.{Tables}
use mogtrade_engine.Database.Table.{any_where}
use mogtrade_engine.Database.Session.{Session, Error, after, not_json, ◌>>=◌, ◌>>◌}
use mogtrade_engine.Database.Session.Rules.{
  Holds, done, failed, Holds-after, Holds-mono, or_fail-Holds, Writes, Writes-then, read-Holds,
  write-Holds, write_unique-Holds,
}
use mogtrade_engine.Database.Transaction.{with_transaction, with_transaction-Holds}
use mogtrade_engine.Database.Wallets as Wallets
use mogtrade_engine.Database.Wallets.{
  uses_token, recorded_transaction, transaction_violates, snapshot_of,
  create_transaction_ledger_entry, idempotency_key_exists, refresh_wallet_snapshots,
}
use mogtrade_engine.Billing.Service.{
  RecordWalletTransactionParams, transaction_params, value_note, divided, record_wallet_transaction,
}

module _ {A : Type 0} where
  -- CreateTransactionLedgerEntry, as a change of the tables.
  abbrev pub entering : Option String → String → String → ℕ → Tables A → Tables A
  entering wallet transaction notes now t = record t {
    entries =
        t.entries
        ++ record { wallet = wallet; transaction = transaction; notes = notes; recorded_at = now }
          ∷ [];
  }

  abbrev pub adding : Wallets.RecordWalletTransactionParams A → ℕ → Tables A → Tables A
  adding p now t = record t { transactions = t.transactions ++ recorded_transaction now p ∷ [] }

module _ (d : Decimals) where
  open d use {Amount, is_zero, div}

  abbrev pub refreshing : ℕ → Tables Amount → Tables Amount
  refreshing now t = record t { snapshots = map (snapshot_of d now t.transactions) t.wallets }

  module _ {Extra : Type 0} (marshal : Extra → Option String)
      (req : RecordWalletTransactionParams Amount Extra) where
    abbrev pub quotient : Amount
    quotient = div req.value req.exchange_rate

    -- The transaction is added, an entry is made for each of its wallets, and the snapshots are
    -- made again.
    abbrev added : String → ℕ → Tables Amount → Tables Amount
    added extra now t = adding (transaction_params d marshal req extra) now t

    abbrev taken : String → ℕ → Tables Amount → Tables Amount
    taken extra now t =
        entering req.src req.id (value_note d "-" req.currency quotient) now (added extra now t)

    abbrev given : String → ℕ → Tables Amount → Tables Amount
    given extra now t =
        entering req.dest req.id (value_note d "+" req.currency quotient) now (taken extra now t)

    abbrev pub recorded : String → ℕ → Tables Amount → Tables Amount
    recorded extra now t = refreshing now (given extra now t)

    pub record IsRecorded (now : ℕ) (s t : Tables Amount) : Type 0 where
      pub extra : String
      pub json : marshal req.extra_data ≡ some extra
      pub new_token : any_where (uses_token req.idempotency_token) s.transactions ≡ false
      pub divides : is_zero req.exchange_rate ≡ false
      pub tables : t ≡ recorded extra now s

    abbrev NothingSaid : Error → Session Amount → Type 0
    NothingSaid e t = ⊤

    divided-Holds :
        (s : Session Amount)
        → Holds
            (λ x t. (is_zero req.exchange_rate ≡ false) × (x ≡ quotient) × (t ≡ s))
            NothingSaid
            (divided d req.value req.exchange_rate s)
    divided-Holds s = elim (Bool-cases (is_zero req.exchange_rate)) [
      | inl zero ↦ rw zero (failed tt)
      | inr positive ↦ rw positive (done (refl, refl, refl))
    ]

    -- The entries and the snapshots, once the transaction is added.
    enter_both :
        (s : Session Amount) (extra : String)
        → marshal req.extra_data ≡ some extra
        → any_where (uses_token req.idempotency_token) s.tables.transactions ≡ false
        → (t : Session Amount) → Writes (added extra) s t
        → Holds
            (λ x u. IsRecorded s.now s.tables u.tables)
            NothingSaid
            (after (divided d req.value req.exchange_rate t) (λ out.
              create_transaction_ledger_entry req.src req.id (value_note d "-" req.currency out)
              >> (divided d req.value req.exchange_rate >>= λ in_value.
                  create_transaction_ledger_entry req.dest req.id
                    (value_note d "+" req.currency in_value)
                  >> refresh_wallet_snapshots d)))
    unfolding create_transaction_ledger_entry refresh_wallet_snapshots
    enter_both s extra json new_token t reached =
        Holds-after _ _ (divided-Holds t) (λ e u h. tt)
          (λ out u q.
            rw (q.1, q.2)
              (Holds-after _ _
                (write-Holds (entering req.src req.id (value_note d "-" req.currency quotient)) t)
                (λ e v h. tt)
                (λ x v src_entered.
                  Holds-after _ _ (divided-Holds v) (λ e w h. tt)
                    (λ in_value w k.
                      rw (k.1, k.2)
                        (Holds-after _ _
                          (write-Holds
                            (entering req.dest req.id (value_note d "+" req.currency quotient)) v)
                          (λ e y h. tt)
                          (λ x y dest_entered.
                            Holds-mono _ (write-Holds refreshing y) (λ e z h. tt)
                              (λ x z refreshed. record {
                                extra = extra;
                                json = json;
                                new_token = new_token;
                                divides = q.0;
                                tables =
                                    (Writes-then (given extra) refreshing s y z
                                      (Writes-then (taken extra)
                                        (entering req.dest req.id
                                          (value_note d "+" req.currency quotient))
                                        s v y
                                        (Writes-then (added extra)
                                          (entering req.src req.id
                                            (value_note d "-" req.currency quotient))
                                          s t v reached src_entered)
                                        dest_entered)
                                      refreshed).0;
                              })))))))

    pub record_wallet_transaction-IsRecorded :
        (s : Session Amount)
        → Holds
            (λ x t. IsRecorded s.now s.tables t.tables)
            NothingSaid
            (record_wallet_transaction d marshal req s)
    unfolding record_wallet_transaction idempotency_key_exists Wallets.record_wallet_transaction
        create_transaction_ledger_entry refresh_wallet_snapshots
    record_wallet_transaction-IsRecorded s =
        Holds-after _ _
          (read-Holds (λ t. any_where (uses_token req.idempotency_token) t.transactions) s)
          (λ e t h. tt)
          (λ exists t h. elim (Bool-cases exists) [
            | inl known ↦ rw known (failed tt)
            | inr new ↦ rw new (
                Holds-after _ _ (or_fail-Holds (marshal req.extra_data) not_json t) (λ e u k. tt)
                  (λ extra u json.
                    Holds-after _ _
                      (write_unique-Holds
                        (transaction_violates (transaction_params d marshal req extra))
                        (added extra) u)
                      (λ e v k. tt)
                      (λ x v w.
                        enter_both s extra json.0 (sym h.1 ∙ new) v
                          (rw (json.1, h.0.tables, h.0.now) at w.1))))
          ])

    -- Inside the transaction of its caller, RecordWalletTransaction succeeds only with a new
    -- token, an exchange rate that is not zero and extra data that can be encoded; it then adds
    -- the transaction, enters it for its source and for its destination and makes the snapshots
    -- again, and changes nothing else. When it fails, nothing is changed.
    pub record_wallet_transaction-atomic :
        (s : Session Amount)
        → Holds
            (λ x t. IsRecorded s.now s.tables t.tables)
            (λ e t. t.tables ≡ s.tables)
            (with_transaction (record_wallet_transaction d marshal req) s)
    record_wallet_transaction-atomic s =
        with_transaction-Holds (λ x t. IsRecorded s.now s.tables t)
          (record_wallet_transaction d marshal req) s
          (λ from same. rw (← same.tables, ← same.now) (record_wallet_transaction-IsRecorded from))
