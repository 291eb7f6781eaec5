-- ===== src/Billing/Balances.antt =====
-- The balances of the view wallet_snapshots: a wallet is charged when a transaction is recorded,
-- and the other side is paid when it is completed.
use mogtrade_engine.Base.{
  ℕ, ◌≡◌, ◌⊎◌, ◌∙◌, refl, sym, ap, true, false, some, inl, inr, String, List, [], ◌∷◌, ◌++◌, arith,
  Bool-cases, if◌then◌else◌, string_eq, ◌is◌, is_refl,
}
use mogtrade_engine.Decimal.{Decimals}
use mogtrade_engine.Decimal.Laws.{zero_add}
use mogtrade_engine.Database.Enums.{
  TransactionStatus, transaction_completed, transaction_cancelled, transaction_failed,
  transaction_created, transaction_processing, transaction_status_eq,
}
use mogtrade_engine.Database.Rows.{Wallet, WalletTransaction}
use mogtrade_engine.Database.Table.{both}
use mogtrade_engine.Database.Wallets.{outgoing, incoming, net_change, snapshot_of, starting}

status-cases :
    (s : TransactionStatus)
    → ((s ≡ transaction_created) ⊎ (s ≡ transaction_processing))
      ⊎ ((s ≡ transaction_completed) ⊎ ((s ≡ transaction_failed) ⊎ (s ≡ transaction_cancelled)))
status-cases transaction_created = inl (inl refl)
status-cases transaction_processing = inl (inr refl)
status-cases transaction_completed = inr (inl refl)
status-cases transaction_failed = inr (inr (inl refl))
status-cases transaction_cancelled = inr (inr (inr refl))

module _ (d : Decimals) where
  open d use {Amount, zero_amount, add, neg, neg_add, add_comm, add_assoc, add_zero}

  net_change-last :
      (id : String) (xs : List (WalletTransaction Amount)) (x : WalletTransaction Amount)
      → net_change d id (xs ++ x ∷ [])
        ≡ add (net_change d id xs) (add (outgoing d id x) (incoming d id x))
  unfolding net_change
  net_change-last id [] x = add_zero _ ∙ sym (zero_add d _)
  net_change-last id (y ∷ ys) x = ap (add _) (net_change-last id ys x) ∙ sym (add_assoc _ _ _)

  -- What a transaction changes of the balance of a wallet.
  abbrev pub moved : WalletTransaction Amount → String → Amount
  moved x id = add (outgoing d id x) (incoming d id x)

  moved-created :
      (x : WalletTransaction Amount) (id : String)
      → x.status ≡ transaction_created
      → moved x id ≡ (if both x.src (some id) then neg x.value else zero_amount)
  unfolding outgoing incoming
  moved-created x id created =
      rw created (ground (arith, add_zero (neg x.value), add_zero zero_amount))

  -- Once a transaction is recorded, the balance of its source is lower by its value, and that of
  -- every other wallet, its destination included, is what it was.
  pub created-charges :
      (now : ℕ) (xs : List (WalletTransaction Amount)) (x : WalletTransaction Amount)
      (w : Wallet Amount)
      → x.status ≡ transaction_created
      → (snapshot_of d now (xs ++ x ∷ []) w).current_balance ≡ (
          if both x.src (some w.id)
          then add (snapshot_of d now xs w).current_balance (neg x.value)
          else (snapshot_of d now xs w).current_balance)
  unfolding snapshot_of outgoing incoming
  created-charges now xs x w created =
      let before : Amount = add (starting d w) (net_change d w.id xs) in
      ap (add (starting d w)) (net_change-last w.id xs x)
      ∙ sym (add_assoc (starting d w) (net_change d w.id xs) (moved x w.id))
      ∙ ap (add before) (moved-created x w.id created)
      ∙ (elim (Bool-cases (both x.src (some w.id))) [
        | inl source ↦ rw source refl
        | inr other ↦ rw other (add_zero before)
      ])

  -- A transaction between two wallets takes its value from the source while it is created or
  -- processing; it gives it to the destination as well once it is completed, so that the two
  -- changes cancel; and it moves nothing once it has failed or is cancelled.
  pub moved-by_status :
      (x : WalletTransaction Amount) (src dest : String)
      → x.src ≡ some src
      → x.dest ≡ some dest
      → (src is dest) ≡ false
      → (((x.status ≡ transaction_created) ⊎ (x.status ≡ transaction_processing))
          × (moved x src ≡ neg x.value)
          × (moved x dest ≡ zero_amount))
        ⊎ (((x.status ≡ transaction_completed)
              × (add (moved x src) (moved x dest) ≡ zero_amount)
              × (moved x dest ≡ x.value))
            ⊎ (((x.status ≡ transaction_failed) ⊎ (x.status ≡ transaction_cancelled))
                × (moved x src ≡ zero_amount)
                × (moved x dest ≡ zero_amount)))
  unfolding outgoing incoming both
  moved-by_status x src dest of_src of_dest apart =
      let back : (dest is src) ≡ false =
        ground (arith, string_eq.beq_iff src dest, string_eq.beq_iff dest src) in
      let src_src : both x.src (some src) ≡ true = rw of_src (is_refl src) in
      let src_dest : both x.src (some dest) ≡ false = rw of_src apart in
      let dest_dest : both x.dest (some dest) ≡ true = rw of_dest (is_refl dest) in
      let dest_src : both x.dest (some src) ≡ false = rw of_dest back in
      let held = add_zero (neg x.value) in
      let paid = zero_add d x.value in
      let still = add_zero zero_amount in
      elim (status-cases x.status) [
        | inl at ↦ inl (
          at,
          ground (arith, src_src, dest_src, held),
          ground (arith, src_dest, dest_dest, still),
        )
        | inr (inl at) ↦ inr (
            inl (
              at,
              ground (arith, src_src, dest_src, src_dest, dest_dest, held, paid, neg_add x.value),
              ground (arith, src_dest, dest_dest, paid),
            ))
        | inr (inr at) ↦ inr (
            inr (
              at,
              ground (arith, src_src, dest_src, still),
              ground (arith, src_dest, dest_dest, still),
            ))
      ]
