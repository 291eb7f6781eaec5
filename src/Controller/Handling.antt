-- ===== src/Controller/Handling.antt =====
-- app/controller/orders.go, handlePlaceOrder: a payload that is bound is validated, the order is
-- stored in a transaction, and it is then handed to the engine of its kind of wallet. The binding of
-- the request and the event that is published are not modelled; the call of the engine, a
-- goroutine, runs to its end, and a panic is answered as any other error, by gin's recovery.
use mogtrade_engine.Base.{
  ⊤, arith, ◌≡◌, ◌≢◌, ◌⊎◌, refl, true, false, inl, inr, String, List, [], ◌∷◌, Bool-cases,
  if◌then◌else◌, ◌is◌,
}
use mogtrade_engine.Decimal.{Decimals}
use mogtrade_engine.Database.Enums.{WalletType, wallet_real, wallet_type_eq}
use mogtrade_engine.Database.Session.{
  Session, Result, Error, ok, err, wallet_not_found, unsupported_order_type, order_not_found,
  invalid_order_transition, duplicate_idempotency_key, duplicate_order,
}
use mogtrade_engine.Database.Session.Rules.{Holds, done, failed}
use mogtrade_engine.Database.Transaction.{with_transaction}
use mogtrade_engine.Matching.Book.{PlaceMatchOrderParams}
use mogtrade_engine.Matching.Engine.Calls.{place_match_order}
use mogtrade_engine.Orders.Placing.{is_known}
use mogtrade_engine.Controller.Cancelling.{Engines}
use mogtrade_engine.Controller.Placing.{PlaceOrderPayload, RequestIds, validate, order_of, place}
use mogtrade_engine.Controller.Stored.{IsStored, place-stores}

-- The answers of the handler: 202, 400 with the messages, 422 and 500.
pub data PlaceResponse : Type 0 where
  place_accepted : PlaceResponse
  bad_request : List String → PlaceResponse
  place_unprocessable : PlaceResponse
  place_failed : PlaceResponse

-- What an error of the transaction is answered with.
unfoldable pub refusal_of : Error → PlaceResponse
refusal_of duplicate_idempotency_key = place_accepted
refusal_of duplicate_order = place_accepted
refusal_of wallet_not_found = place_unprocessable
refusal_of unsupported_order_type = place_unprocessable
refusal_of order_not_found = place_unprocessable
refusal_of (invalid_order_transition from to) = place_unprocessable
refusal_of e = place_failed

module _ (d : Decimals) where
  open d use {Amount}

  abbrev pub match_params : RequestIds → PlaceOrderPayload Amount → PlaceMatchOrderParams Amount
  match_params ids p = record {
    order_id = ids.order_id;
    symbol = p.symbol;
    side = p.side;
    quantity = p.quantity;
    price = p.limit_price.decimal;
  }

  -- getEngine, and the placing in the engine that it gives.
  unfoldable pub place_in : Engines Amount → RequestIds → PlaceOrderPayload Amount → Engines Amount
  place_in engines ids p =
      if p.wallet_type is wallet_real
      then record engines { real = place_match_order d engines.real (match_params ids p) }
      else record engines { virtual = place_match_order d engines.virtual (match_params ids p) }

  unfoldable pub placed_in :
      RequestIds
      → PlaceOrderPayload Amount
      → Engines Amount
      → Result ⊤ × Session Amount
      → PlaceResponse × Session Amount × Engines Amount
  placed_in ids p engines (ok x, t) = (place_accepted, t, place_in engines ids p)
  placed_in ids p engines (err e, t) = (refusal_of e, t, engines)

  unfoldable pub after_validating :
      (String → Result Amount)
      → (WalletType → String)
      → RequestIds
      → PlaceOrderPayload Amount
      → Engines Amount
      → Session Amount
      → List String
      → PlaceResponse × Session Amount × Engines Amount
  after_validating rates system_wallet ids p engines s (m ∷ ms) = (bad_request (m ∷ ms), s, engines)
  after_validating rates system_wallet ids p engines s [] =
      placed_in ids p engines (with_transaction (place d rates system_wallet ids p) s)

  unfoldable pub handle_place_order :
      (String → Result Amount)
      → (WalletType → String)
      → RequestIds
      → PlaceOrderPayload Amount
      → Engines Amount
      → Session Amount
      → PlaceResponse × Session Amount × Engines Amount
  handle_place_order rates system_wallet ids p engines s =
      after_validating rates system_wallet ids p engines s (validate d p)

  module _ (ids : RequestIds) (p : PlaceOrderPayload Amount) (engines : Engines Amount)
      (s : Session Amount) where
    -- The order is in the book of one engine, that of its wallet, and the other is as before.
    pub record InOne (after : Engines Amount) : Type 0 where
      pub where_placed :
          (((p.wallet_type is wallet_real) ≡ true)
            × (after.virtual ≡ engines.virtual)
            × (after.real ≡ place_match_order d engines.real (match_params ids p)))
          ⊎ (((p.wallet_type is wallet_real) ≡ false)
              × (after.real ≡ engines.real)
              × (after.virtual ≡ place_match_order d engines.virtual (match_params ids p)))

    place_in-InOne : InOne (place_in engines ids p)
    unfolding place_in
    place_in-InOne = elim (Bool-cases (p.wallet_type is wallet_real)) [
      | inl real ↦ record { where_placed = inl (real, rw real refl, rw real refl) }
      | inr virtual ↦ record { where_placed = inr (virtual, rw virtual refl, rw virtual refl) }
    ]

    pub data PlaceHandled (rates : String → Result Amount)
        : PlaceResponse × Session Amount × Engines Amount → Type 0 where
      invalid : validate d p ≢ [] → PlaceHandled rates (bad_request (validate d p), s, engines)
      kept :
          (e : Error) (t : Session Amount)
          → validate d p ≡ []
          → t.tables ≡ s.tables
          → PlaceHandled rates (refusal_of e, t, engines)
      stored :
          (t : Session Amount) (after : Engines Amount)
          → validate d p ≡ []
          → IsStored d ids p rates s.tables t.tables
          → InOne after
          → PlaceHandled rates (place_accepted, t, after)

    placed_in-PlaceHandled :
        (rates : String → Result Amount) (r : Result ⊤ × Session Amount)
        → validate d p ≡ []
        → Holds (λ x t. IsStored d ids p rates s.tables t.tables) (λ e t. t.tables ≡ s.tables) r
        → PlaceHandled rates (placed_in ids p engines r)
    unfolding placed_in
    placed_in-PlaceHandled rates (ok x, t) valid (done h) =
        stored t (place_in engines ids p) valid h place_in-InOne
    placed_in-PlaceHandled rates (err e, t) valid (failed h) = kept e t valid h

    after_validating-PlaceHandled :
        (rates : String → Result Amount) (system_wallet : WalletType → String)
        (messages : List String)
        → validate d p ≡ messages
        → PlaceHandled rates (after_validating rates system_wallet ids p engines s messages)
    unfolding after_validating
    after_validating-PlaceHandled rates system_wallet [] same =
        placed_in-PlaceHandled rates _ same (place-stores d ids p rates system_wallet s)
    after_validating-PlaceHandled rates system_wallet (m ∷ ms) same =
        rw (← same) (invalid (ground (arith, same)))

    -- A payload that Validate finds fault with is answered with its messages, and nothing changes.
    -- Otherwise either the transaction fails, and neither the tables nor an engine changes, or the
    -- order is stored and placed in the engine of its wallet, the other engine staying as it was.
    pub handle_place_order-PlaceHandled :
        (rates : String → Result Amount) (system_wallet : WalletType → String)
        → PlaceHandled rates (handle_place_order rates system_wallet ids p engines s)
    unfolding handle_place_order
    handle_place_order-PlaceHandled rates system_wallet =
        after_validating-PlaceHandled rates system_wallet (validate d p) refl

    unchanged :
        {rates : String → Result Amount} {r : PlaceResponse × Session Amount × Engines Amount}
        (rate : Amount)
        → is_known (order_of d ids p rate) s.tables ≡ true
        → PlaceHandled rates r
        → (r.1.tables ≡ s.tables) × (r.2 ≡ engines)
    unchanged rate known (invalid bad) = (refl, refl)
    unchanged rate known (kept e t valid same) = (same, refl)
    unchanged rate known (stored t after valid h one) = absurd (ground (arith, known, h.new_token))

    -- A request whose user already has an order with the request's idempotency token leaves the
    -- tables and the engines as they are, whatever else it asks for and whatever the rates are.
    pub handle_place_order-once :
        (rates : String → Result Amount) (system_wallet : WalletType → String) (rate : Amount)
        → is_known (order_of d ids p rate) s.tables ≡ true
        → let r = handle_place_order rates system_wallet ids p engines s in
          (r.1.tables ≡ s.tables) × (r.2 ≡ engines)
    handle_place_order-once rates system_wallet rate known =
        unchanged rate known (handle_place_order-PlaceHandled rates system_wallet)
