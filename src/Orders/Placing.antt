-- ===== src/Orders/Placing.antt =====
-- services/orders/service.go: PlaceOrder adds one order for each token of a user.
use mogtrade_engine.Base.{
  ℕ, ◌≡◌, refl, Bool, true, false, none, some, inl, inr, String, [], ◌∷◌, ◌++◌, arith, Bool-cases,
  string_eq, ◌is◌, is_refl,
}
use mogtrade_engine.Database.Enums.{type_limit}
use mogtrade_engine.Database.Rows.{Tables}
use mogtrade_engine.Database.Table.{both, any_where, any_where-last}
use mogtrade_engine.Database.Session.{
  Session, Error, unique_violation, database_failed, duplicate_order, unsupported_order_type, ok,
}
use mogtrade_engine.Database.Session.Rules.{
  Holds, failed, Holds-handled, Holds-mono, Holds-ok, Refused, write_unique-Holds,
}
use mogtrade_engine.Database.Orders as Orders
use mogtrade_engine.Database.Orders.{has_id, has_token, order_violates, placed_order}
use mogtrade_engine.Orders.Service.{PlaceOrderParams, order_params, place_order, or_duplicate_order}

module _ {A : Type 0} where
  -- The user has an order with the token.
  abbrev pub is_known : PlaceOrderParams A → Tables A → Bool
  is_known p t = any_where (has_token (some p.placed_by) (some p.idempotency_token)) t.orders

  abbrev pub is_listed : PlaceOrderParams A → Tables A → Bool
  is_listed p t = any_where (has_id p.order_id) t.orders

  abbrev pub with_order : PlaceOrderParams A → ℕ → Tables A → Tables A
  with_order p now t = record t { orders = t.orders ++ placed_order now (order_params p) ∷ [] }

  -- Why an order was not placed.
  pub data WhyNot (p : PlaceOrderParams A) (t : Tables A) : Error → Type 0 where
    broken : WhyNot p t database_failed
    not_limit : (p.order_type is type_limit) ≡ false → WhyNot p t unsupported_order_type
    repeated : is_listed p t ≡ false → is_known p t ≡ true → WhyNot p t duplicate_order
    same_id : is_listed p t ≡ true → WhyNot p t (unique_violation "orders_pkey")

  why_refused :
      (p : PlaceOrderParams A) (t : Tables A) (index : String)
      → order_violates (order_params p) t ≡ some index
      → WhyNot p t (or_duplicate_order (unique_violation index))
  unfolding order_violates
  why_refused p t index taken = elim (Bool-cases (is_listed p t)) [
    | inl listed ↦ let name : "orders_pkey" ≡ index = ground arith in rw (← name) (same_id listed)
    | inr fresh ↦ elim (Bool-cases (is_known p t)) [
      | inl known ↦
          let name : "orders_user_id_client_order_id_uidx" ≡ index = ground arith in
          rw (← name) (repeated fresh known)
      | inr new ↦ absurd (ground arith)
    ]
  ]

  why_not :
      (p : PlaceOrderParams A) (s : Session A) (e : Error) (t : Session A)
      → Refused (order_violates (order_params p)) s e t
      → (t.tables ≡ s.tables) × WhyNot p s.tables (or_duplicate_order e)
  why_not p s e t (same, inl fault) = (same.tables, rw fault.0 broken)
  why_not p s e t (same, inr (index, e_is, taken)) =
      (same.tables, rw e_is (why_refused p s.tables index taken))

  free :
      (p : PlaceOrderParams A) (t : Tables A)
      → order_violates (order_params p) t ≡ none
      → (is_listed p t ≡ false) × (is_known p t ≡ false)
  unfolding order_violates
  free p t none_taken = ground arith

  -- PlaceOrder succeeds only for a limit order whose id and token are new, and then adds that
  -- order, pending, and changes nothing else; when it fails, it changes nothing, and the error
  -- says why.
  pub place_order-places :
      (p : PlaceOrderParams A) (s : Session A)
      → Holds
          (λ x t.
            ((p.order_type is type_limit) ≡ true)
            × (is_listed p s.tables ≡ false)
            × (is_known p s.tables ≡ false)
            × (t.tables ≡ with_order p s.now s.tables))
          (λ e t. (t.tables ≡ s.tables) × WhyNot p s.tables e)
          (place_order p s)
  unfolding place_order Orders.place_order
  place_order-places p s = elim (Bool-cases (p.order_type is type_limit)) [
    | inr other ↦ rw (other, place_order) (failed (refl, not_limit other))
    | inl limit ↦
        rw (limit, place_order)
          (Holds-handled or_duplicate_order _
            (Holds-mono _ (write_unique-Holds (order_violates (order_params p)) (with_order p) s)
              (λ e t stopped. stopped)
              (λ x t w. let (fresh, new) = free p s.tables w.0 in (refl, fresh, new, w.1.0)))
            (why_not p s))
  ]

  known_now :
      (p : PlaceOrderParams A) (s t : Session A)
      → t.tables ≡ with_order p s.now s.tables
      → is_known p t.tables ≡ true
  unfolding both
  known_now p s t tables =
      rw
        (
          tables,
          any_where-last (has_token (some p.placed_by) (some p.idempotency_token)) s.tables.orders
              (placed_order s.now (order_params p)),
        )
        (ground (arith, is_refl p.placed_by, is_refl p.idempotency_token))

  -- An order with the token is there once PlaceOrder has succeeded, and while it is there no
  -- PlaceOrder with the user and the token succeeds.
  pub place_order-once :
      (p q : PlaceOrderParams A) (s t : Session A)
      → place_order p s ≡ (ok tt, t)
      → q.placed_by ≡ p.placed_by
      → q.idempotency_token ≡ p.idempotency_token
      → (is_known p t.tables ≡ true)
        × Holds (λ x u. ⊥) (λ e u. u.tables ≡ t.tables) (place_order q t)
  place_order-once p q s t placed user token =
      let (limit, fresh, new, tables) = Holds-ok (rw placed at (place_order-places p s)) in
      let known = known_now p s t tables in
      (
        known,
        Holds-mono _ (place_order-places q t) (λ e u stopped. stopped.0)
            (λ x u h. ground (arith, h.2, known, rw (user, token) at h.2)),
      )
