-- ===== src/Billing/Opening.antt =====
-- services/billing/wallet.go: CreateUserWallet opens one wallet of a type for each owner.
use mogtrade_engine.Base.{
  ⊤, ℕ, ◌≡◌, ◌⊎◌, ◌∙◌, refl, sym, ap, Bool, true, false, some, inl, inr, [], ◌∷◌, ◌++◌, Bool-cases,
  ◌is◌,
}
use mogtrade_engine.Decimal.{Decimals}
use mogtrade_engine.Database.Enums.{WalletType, wallet_real, wallet_virtual, wallet_type_eq}
use mogtrade_engine.Database.Rows.{Tables}
use mogtrade_engine.Database.Table.{any_where}
use mogtrade_engine.Database.Session.{Session, Error, write_unique}
use mogtrade_engine.Database.Session.Rules.{
  Holds, failed, Holds-after, Holds-mono, Writes, Writes-then, read-Holds, write-Holds,
  write_unique-Holds,
}
use mogtrade_engine.Database.Transaction.{with_transaction, with_transaction-Holds}
use mogtrade_engine.Database.Wallets.{
  belongs, wallet_violates, user_has_wallet, create_real_wallet, create_virtual_wallet,
  refresh_wallet_snapshots,
}
use mogtrade_engine.Billing.Service.{
  CreateWalletParams, zero_balance, open_wallet, create_user_wallet,
}
use mogtrade_engine.Billing.Recording.{refreshing}

WalletType-cases : (type : WalletType) → (type ≡ wallet_real) ⊎ (type ≡ wallet_virtual)
WalletType-cases wallet_real = inl refl
WalletType-cases wallet_virtual = inr refl

module _ (d : Decimals) (req : CreateWalletParams) where
  open d use {Amount}

  -- A new wallet of the requested type, with nothing in it.
  abbrev opening_of : WalletType → ℕ → Tables Amount → Tables Amount
  opening_of type now t = record t {
    wallets =
        t.wallets
        ++ record {
          id = req.id;
          owner = some req.owner_id;
          starting_balance = zero_balance d;
          wallet_type = type;
        }
          ∷ [];
  }

  abbrev pub opening : ℕ → Tables Amount → Tables Amount
  opening now t = opening_of req.wallet_type now t

  abbrev pub has_wallet : Tables Amount → Bool
  has_wallet t = any_where (belongs (some req.owner_id) req.wallet_type) t.wallets

  abbrev NothingSaid : Error → Session Amount → Type 0
  NothingSaid e t = ⊤

  opens :
      (type : WalletType) (s : Session Amount)
      → type ≡ req.wallet_type
      → Holds
          (λ x t. Writes opening s t)
          NothingSaid
          (write_unique (wallet_violates req.id (some req.owner_id) type) (opening_of type) s)
  opens type s same =
      Holds-mono _
        (write_unique-Holds (wallet_violates req.id (some req.owner_id) type) (opening_of type) s)
        (λ e t h. tt) (λ x t w. (w.1.0 ∙ ap (λ ty. opening_of ty s.now s.tables) same, w.1.1))

  open_wallet-opening :
      (s : Session Amount) → Holds (λ x t. Writes opening s t) NothingSaid (open_wallet d req s)
  unfolding create_real_wallet create_virtual_wallet
  open_wallet-opening s = elim (WalletType-cases req.wallet_type) [
    | inl real ↦
        let test : (req.wallet_type is wallet_real) ≡ true = rw real refl in
        rw (test, open_wallet) (opens wallet_real s (sym real))
    | inr virtual ↦
        let test : (req.wallet_type is wallet_real) ≡ false = rw virtual refl in
        rw (test, open_wallet) (opens wallet_virtual s (sym virtual))
  ]

  pub create_user_wallet-opens :
      (s : Session Amount)
      → Holds
          (λ x t.
            (has_wallet s.tables ≡ false)
            × (t.tables ≡ refreshing d s.now (opening s.now s.tables)))
          NothingSaid
          (create_user_wallet d req s)
  unfolding create_user_wallet user_has_wallet refresh_wallet_snapshots
  create_user_wallet-opens s =
      Holds-after _ _ (read-Holds has_wallet s) (λ e t h. tt)
        (λ exists t h. elim (Bool-cases exists) [
          | inl known ↦ rw known (failed tt)
          | inr new ↦
              let fresh : has_wallet s.tables ≡ false = sym h.1 ∙ new in
              rw (new, fresh)
                (Holds-after _ _ (open_wallet-opening t) (λ e u k. tt)
                  (λ x u opened.
                    Holds-mono _ (write-Holds (refreshing d) u) (λ e v k. tt)
                      (λ y v refreshed. (
                        refl,
                        (Writes-then opening (refreshing d) s u v
                            (rw (h.0.tables, h.0.now) at opened) refreshed).0,
                      ))))
        ])

  -- Inside a transaction, CreateUserWallet succeeds only for an owner without a wallet of the
  -- type, and then adds one that is empty and makes the snapshots again. When it fails, nothing
  -- is changed.
  pub create_user_wallet-atomic :
      (s : Session Amount)
      → Holds
          (λ x t.
            (has_wallet s.tables ≡ false)
            × (t.tables ≡ refreshing d s.now (opening s.now s.tables)))
          (λ e t. t.tables ≡ s.tables)
          (with_transaction (create_user_wallet d req) s)
  create_user_wallet-atomic s =
      with_transaction-Holds
        (λ x t. (has_wallet s.tables ≡ false) × (t ≡ refreshing d s.now (opening s.now s.tables)))
        (create_user_wallet d req) s
        (λ from begun. rw (← begun.tables, ← begun.now) (create_user_wallet-opens from))
