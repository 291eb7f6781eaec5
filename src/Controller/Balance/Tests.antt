-- ===== src/Controller/Balance/Tests.antt =====
-- handleGetBalance for a user with a wallet and for a stranger.
use mogtrade_engine.Base.{◌≡◌, refl, none, some}
use mogtrade_engine.Base.Int.{pos}
use mogtrade_engine.Decimal.Whole.{whole}
use mogtrade_engine.Database.Enums.{wallet_virtual}
use mogtrade_engine.Database.Table.{both, first_where, any_where}
use mogtrade_engine.Database.Session.{attempt, read}
use mogtrade_engine.Database.Wallets.{find_wallet_snapshot_by_owner_id}
use mogtrade_engine.Database.Auth.{user_exists_with_id}
use mogtrade_engine.Billing.Service.{get_current_wallet_snapshot}
use mogtrade_engine.Controller.Tests.{with_wallet}
use mogtrade_engine.Controller.Balance.{
  WalletIds, Shows, balance_is, no_wallet, wallet_snapshot_payload, handle_get_balance,
  handle_get_balance-Shows,
}

abbrev wallet_ids : WalletIds
wallet_ids = record {
  real_id = "r";
  virtual_id = "v";
  transaction_id = "p";
  idempotency_token = "q";
  tracing_id = "t";
}

balance_of_u :
    (handle_get_balance whole
      (some (pos 1))
      (pos 100000)
      wallet_ids
      "u"
      wallet_virtual
      with_wallet).0
    ≡ balance_is
        (record { balance = pos 100; id = "w"; total_transactions = 0; last_activity_at = none })
unfolding handle_get_balance get_current_wallet_snapshot find_wallet_snapshot_by_owner_id read
    attempt first_where both wallet_snapshot_payload
balance_of_u = refl

stranger :
    (handle_get_balance whole
      (some (pos 1))
      (pos 100000)
      wallet_ids
      "z"
      wallet_virtual
      with_wallet).0
    ≡ no_wallet
unfolding handle_get_balance get_current_wallet_snapshot find_wallet_snapshot_by_owner_id read
    attempt first_where both user_exists_with_id any_where
stranger = refl

handle_get_balance-Shows_example :
    Shows whole (some (pos 1)) (pos 100000) wallet_ids "u" wallet_virtual with_wallet (
      handle_get_balance whole
        (some (pos 1))
        (pos 100000)
        wallet_ids
        "u"
        wallet_virtual
        with_wallet)
handle_get_balance-Shows_example =
    handle_get_balance-Shows whole (some (pos 1)) (pos 100000) wallet_ids "u" wallet_virtual
      with_wallet
