-- ===== src/Controller/Cancelling.antt =====
-- app/controller/orders.go, handleCancelOrder: an order is cancelled in the database and then taken
-- out of the book of one of the two engines.
use mogtrade_engine.Base.{
  ⊤, ◌≡◌, ◌⊎◌, refl, true, false, Bool-cases, Option, none, some, inl, inr, String, arith,
  if◌then◌else◌, string_eq, ◌is◌,
}
use mogtrade_engine.Decimal.{Decimals}
use mogtrade_engine.Database.Enums.{
  WalletType, wallet_real, wallet_virtual, wallet_type_eq, cancelled,
}
use mogtrade_engine.Database.Rows.{Order, Tables}
use mogtrade_engine.Database.Table.{first_where, first_where-either}
use mogtrade_engine.Database.Session.{
  Session, Result, Error, ok, err, attempt, attempt-tables, read, one, order_not_found,
  invalid_order_transition,
}
use mogtrade_engine.Database.Session.Rules.{
  Holds, done, failed, Missing, Same, Holds-mono, Holds-both, one-Holds,
}
use mogtrade_engine.Database.Transaction.{with_transaction, with_transaction-Holds}
use mogtrade_engine.Database.Orders.{has_id, is_owned}
use mogtrade_engine.Database.Wallets.{wallet_type_of, get_order_wallet_type}
use mogtrade_engine.Matching.Engine.Calls.{Engine, cancel_match_order}
use mogtrade_engine.Orders.Service.{cancel_order}
use mogtrade_engine.Orders.Transitions.{CanMove, with_status, cancel_order-MovesIt}

-- The status codes of the handler: 202, 404, 422 and 500.
pub data Response : Type 0 where
  accepted not_found unprocessable server_error : Response

pub record Engines (A : Type 0) : Type 0 where
  pub real : Engine A
  pub virtual : Engine A

abbrev pub response_of : Error → Response
response_of order_not_found = not_found
response_of (invalid_order_transition from to) = unprocessable
response_of e = server_error

module _ (d : Decimals) where
  open d use {Amount}

  -- getEngine, and the cancelling in the engine that it gives.
  abbrev pub cancel_in : Engines Amount → WalletType → String → Order Amount → Engines Amount
  cancel_in engines type id o =
      if type is wallet_real
      then record engines {
        real = (cancel_match_order d engines.real id o.symbol o.side o.limit_price.decimal).0;
      }
      else record engines {
        virtual = (cancel_match_order d engines.virtual id o.symbol o.side o.limit_price.decimal).0;
      }

  -- The error of GetOrderWalletType is dropped; the zero value is not the real type.
  abbrev pub type_found : Result WalletType × Session Amount → WalletType
  type_found (ok type, t) = type
  type_found (err e, t) = wallet_virtual

  abbrev finish :
      String
      → Engines Amount
      → Result (Order Amount) × Session Amount
      → Response × Session Amount × Engines Amount
  finish id engines (err e, t) = (response_of e, t, engines)
  finish id engines (ok o, t) =
      let found = get_order_wallet_type id t in
      (accepted, found.1, cancel_in engines (type_found found) id o)

  unfoldable pub handle_cancel_order :
      String → String → Engines Amount → Session Amount → Response × Session Amount × Engines Amount
  handle_cancel_order user id engines s =
      finish id engines (with_transaction (cancel_order user id) s)

  -- What the transaction of the handler does.
  cancels :
      (user id : String) (s : Session Amount)
      → Holds
          (λ o t.
            CanMove user id cancelled s.tables o
            × (t.tables ≡ with_status user id cancelled s.now s.tables))
          (λ e t. t.tables ≡ s.tables)
          (with_transaction (cancel_order user id) s)
  cancels user id s =
      with_transaction-Holds
        (λ o t.
          CanMove user id cancelled s.tables o × (t ≡ with_status user id cancelled s.now s.tables))
        (cancel_order user id) s
        (λ from begun.
          rw (← begun.tables, ← begun.now)
            (Holds-mono _ (cancel_order-MovesIt user id from) (λ e t h. tt) (λ x t h. h)))

  module _ (user id : String) (engines : Engines Amount) (s : Session Amount) where
    -- A wallet type that is not found is taken for the virtual one.
    not_found-virtual :
        (r : Result WalletType × Session Amount) {E : Error → Session Amount → Type 0}
        → Holds (λ type t. ⊥) E r
        → type_found r ≡ wallet_virtual
    not_found-virtual (err e, t) (failed h) = refl
    not_found-virtual (ok type, t) (done h) = absurd h

    no_transaction-none :
        (o : Order Amount) (t : Tables Amount)
        → first_where (has_id id) t.orders ≡ some o
        → o.bid_transaction ≡ none
        → wallet_type_of t id ≡ none
    no_transaction-none o t found no_bid = ground arith

    still_none :
        (o : Order Amount) (t : Tables Amount)
        → first_where (has_id id) s.tables.orders ≡ some o
        → o.bid_transaction ≡ none
        → t ≡ with_status user id cancelled s.now s.tables
        → wallet_type_of t id ≡ none
    still_none o t found no_bid tables =
        let marked =
          λ (x : Order Amount). record x { status = some cancelled; updated_at = s.now } in
        rw tables
          (elim (first_where-either (has_id id) (is_owned (some user) id) marked s.tables.orders o
            (λ y. refl) found) [
              | inl same ↦
                  no_transaction-none o (with_status user id cancelled s.now s.tables) same no_bid
              | inr changed ↦
                  no_transaction-none (marked o) (with_status user id cancelled s.now s.tables)
                    changed no_bid
            ])

    -- The answer to a cancelling that never reaches the real engine.
    pub data VirtualOnly : Response × Session Amount × Engines Amount → Type 0 where
      in_virtual :
          (p : Order Amount) (t : Session Amount) (after : Engines Amount)
          → CanMove user id cancelled s.tables p
          → after.real ≡ engines.real
          → after.virtual
            ≡ (cancel_match_order d engines.virtual id p.symbol p.side p.limit_price.decimal).0
          → VirtualOnly (accepted, t, after)
      in_none : (e : Error) (t : Session Amount) → VirtualOnly (response_of e, t, engines)

    finish-VirtualOnly :
        (o : Order Amount) (r : Result (Order Amount) × Session Amount)
        → first_where (has_id id) s.tables.orders ≡ some o
        → o.bid_transaction ≡ none
        → Holds
            (λ p t.
              CanMove user id cancelled s.tables p
              × (t.tables ≡ with_status user id cancelled s.now s.tables))
            (λ e t. t.tables ≡ s.tables)
            r
        → VirtualOnly (finish id engines r)
    unfolding get_order_wallet_type
    finish-VirtualOnly o (err e, t) found no_bid h = in_none e t
    finish-VirtualOnly o (ok x, t) found no_bid (done h) =
        let none_found = still_none o t.tables found no_bid h.1 in
        let virtual = not_found-virtual (get_order_wallet_type id t) (
          Holds-mono _ (one-Holds (λ y. wallet_type_of y id) t) (λ e u k. k)
            (λ type u k. ground (arith, k.1, none_found))) in
        in_virtual x _ _ h.0 (rw virtual refl) (rw virtual refl)

    -- Cancelling an order that has no bid transaction never touches the real engine, whichever
    -- engine the order waits in: when the handler answers that it has
    -- cancelled the order, CancelMatchOrder was called for it on the virtual engine alone, and on
    -- any other answer neither engine has changed.
    pub handle_cancel_order-spares_real :
        (o : Order Amount)
        → first_where (has_id id) s.tables.orders ≡ some o
        → o.bid_transaction ≡ none
        → VirtualOnly (handle_cancel_order user id engines s)
    unfolding handle_cancel_order
    handle_cancel_order-spares_real o found no_bid =
        finish-VirtualOnly o (with_transaction (cancel_order user id) s) found no_bid
          (cancels user id s)

    -- The wallet type that chooses the engine: the one that the tables give for the order, or the
    -- virtual one, where they give none or the query for it, made in the session `u`, failed.
    pub data Chosen (u : Session Amount) : WalletType → Type 0 where
      by_tables : {type : WalletType} → wallet_type_of u.tables id ≡ some type → Chosen u type
      none_given : wallet_type_of u.tables id ≡ none → Chosen u wallet_virtual
      not_asked : (attempt u).0 ≡ false → Chosen u wallet_virtual

    -- CancelMatchOrder is called for the order on the engine of the type, and the other engine is
    -- as before.
    pub record CancelledIn (type : WalletType) (o : Order Amount) (after : Engines Amount)
        : Type 0 where
      pub where_cancelled :
          (((type is wallet_real) ≡ true)
            × (after.virtual ≡ engines.virtual)
            × (after.real
                ≡ (cancel_match_order d engines.real id o.symbol o.side o.limit_price.decimal).0))
          ⊎ (((type is wallet_real) ≡ false)
              × (after.real ≡ engines.real)
              × (after.virtual
                  ≡ (cancel_match_order d engines.virtual id o.symbol o.side
                      o.limit_price.decimal).0))

    cancel_in-CancelledIn :
        (type : WalletType) (o : Order Amount) → CancelledIn type o (cancel_in engines type id o)
    cancel_in-CancelledIn type o = elim (Bool-cases (type is wallet_real)) [
      | inl real ↦ record { where_cancelled = inl (real, rw real refl, rw real refl) }
      | inr virtual ↦ record { where_cancelled = inr (virtual, rw virtual refl, rw virtual refl) }
    ]

    -- The order is cancelled in the database, and then in one engine, or nothing is done anywhere.
    pub data Handled : Response × Session Amount × Engines Amount → Type 0 where
      both_done :
          (u t : Session Amount) (after : Engines Amount) (type : WalletType) (o : Order Amount)
          → CanMove user id cancelled s.tables o
          → u ≡ (with_transaction (cancel_order user id) s).1
          → u.tables ≡ with_status user id cancelled s.now s.tables
          → Chosen u type
          → CancelledIn type o after
          → t.tables ≡ u.tables
          → Handled (accepted, t, after)
      none_done :
          (e : Error) (t : Session Amount)
          → t.tables ≡ s.tables
          → Handled (response_of e, t, engines)

    kept_tables :
        {X : Type 0} (f : Tables Amount → Option X) {t : Session Amount}
        (r : Result X × Session Amount)
        → Holds (λ x u. Same t u × (f t.tables ≡ some x)) (Missing f t) r
        → r.1.tables ≡ t.tables
    kept_tables f (ok x, u) (done h) = h.0.tables
    kept_tables f (err e, u) (failed h) = h.0.tables

    chosen :
        (u : Session Amount) (r : Result WalletType × Session Amount)
        → Holds
            (λ x t. Same u t × (wallet_type_of u.tables id ≡ some x))
            (λ e t. (wallet_type_of u.tables id ≡ none) ⊎ ((attempt u).0 ≡ false))
            r
        → Chosen u (type_found r)
    chosen u (ok type, t) (done h) = by_tables h.1
    chosen u (err e, t) (failed (inl none_found)) = none_given none_found
    chosen u (err e, t) (failed (inr fails)) = not_asked fails

    one_or_none :
        {X : Type 0} (o : Option X) (t : Session Amount)
        → Holds (λ x u. ⊤) (λ e u. o ≡ none) (one (ok o, t))
    one_or_none none t = failed refl
    one_or_none (some x) t = done tt

    asked :
        (u : Session Amount)
        → Holds
            (λ x t. Same u t × (wallet_type_of u.tables id ≡ some x))
            (λ e t. (wallet_type_of u.tables id ≡ none) ⊎ ((attempt u).0 ≡ false))
            (get_order_wallet_type id u)
    unfolding get_order_wallet_type read
    asked u =
        let found = one-Holds (λ y. wallet_type_of y id) u in
        elim (Bool-cases (attempt u).0) [
          | inr fails ↦ Holds-mono _ found (λ e t h. inr fails) (λ x t h. h)
          | inl runs ↦
              Holds-mono _
                (Holds-both {R = λ x t. ⊤}
                  {F = λ e t. wallet_type_of (attempt u).1.tables id ≡ none} _ found
                  (rw (runs, read) (one_or_none _ _)))
                (λ e t h. inl (rw (attempt-tables u) at h.1)) (λ x t h. h.0)
        ]

    finish-Handled :
        (r : Result (Order Amount) × Session Amount)
        → r.1 ≡ (with_transaction (cancel_order user id) s).1
        → Holds
            (λ p t.
              CanMove user id cancelled s.tables p
              × (t.tables ≡ with_status user id cancelled s.now s.tables))
            (λ e t. t.tables ≡ s.tables)
            r
        → Handled (finish id engines r)
    unfolding get_order_wallet_type
    finish-Handled (err e, t) left (failed kept) = none_done e t kept
    finish-Handled (ok o, t) left (done h) =
        both_done t _ _ (type_found (get_order_wallet_type id t)) o h.0 left h.1
          (chosen t (get_order_wallet_type id t) (asked t)) (cancel_in-CancelledIn _ o)
          (kept_tables (λ y. wallet_type_of y id) (get_order_wallet_type id t)
            (one-Holds (λ y. wallet_type_of y id) t))

    -- The handler answers that it has cancelled an order only when the order of the user could be
    -- cancelled and now is, in the database, and CancelMatchOrder was called for it on one engine,
    -- with the other left as it was: the engine of the wallet type that the tables give for the
    -- order, or the virtual one where they give none or the query for the type failed. On every
    -- other answer neither the tables nor an engine has changed.
    pub handle_cancel_order-Handled : Handled (handle_cancel_order user id engines s)
    unfolding handle_cancel_order
    handle_cancel_order-Handled =
        finish-Handled (with_transaction (cancel_order user id) s) refl (cancels user id s)
