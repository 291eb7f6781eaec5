-- ===== src/Orders/Transitions.antt =====
-- services/orders/service.go: SubmitOrder, RejectOrder and CancelOrder move an order along its
-- life, or change nothing.
use mogtrade_engine.Base.{
  ⊤, ℕ, ◌≡◌, ◌⊎◌, ◌∙◌, refl, none, some, inl, inr, String, arith, Bool-cases, Option-cases,
}
use mogtrade_engine.Database.Enums.{OrderStatus, submitted, rejected, cancelled}
use mogtrade_engine.Database.Rows.{Order, Tables}
use mogtrade_engine.Database.Table.{first_where, update_where}
use mogtrade_engine.Database.Session.{
  Session, Query, Result, Error, no_rows, database_failed, order_not_found, nil_dereference,
  invalid_order_transition, pure, on_error, after,
}
use mogtrade_engine.Database.Session.Rules.{
  Same, Holds, done, failed, Holds-after, Holds-mono, Holds-handled, Writes, Broken, one-Holds,
  write-Holds,
}
use mogtrade_engine.Database.Orders.{
  is_owned, find_owned_order, mark_order_submitted, mark_order_rejected, mark_order_cancelled,
}
use mogtrade_engine.Orders.Status.{
  Next, is_order_status_transition_valid, is_order_status_transition_valid_iff,
}
use mogtrade_engine.Orders.Service.{
  check_transition, submit_order, reject_order, cancel_order, or_order_not_found,
}

module _ {A : Type 0} (owner id : String) where
  -- The tables once every order of the owner with the id has the status.
  abbrev pub with_status : OrderStatus → ℕ → Tables A → Tables A
  with_status target now t = record t {
    orders =
        update_where (is_owned (some owner) id)
          (λ o. record o { status = some target; updated_at = now }) t.orders;
  }

  -- The order is there, its owner's, and at a status from which the target can follow.
  pub record CanMove (target : OrderStatus) (t : Tables A) (o : Order A) : Type 0 where
    pub found : first_where (is_owned (some owner) id) t.orders ≡ some o
    pub from : OrderStatus
    pub at : o.status ≡ some from
    pub next : Next from target

  -- Why an order was not moved.
  pub data WhyNot (target : OrderStatus) (t : Tables A) : Error → Type 0 where
    broken : WhyNot target t database_failed
    unknown :
        first_where (is_owned (some owner) id) t.orders ≡ none → WhyNot target t order_not_found
    at_null :
        (o : Order A)
        → first_where (is_owned (some owner) id) t.orders ≡ some o
        → o.status ≡ none
        → WhyNot target t nil_dereference
    not_next :
        (o : Order A) (from : OrderStatus)
        → first_where (is_owned (some owner) id) t.orders ≡ some o
        → o.status ≡ some from
        → (Next from target → ⊥)
        → WhyNot target t (invalid_order_transition from target)

  abbrev pub Moves : {X : Type 0} → OrderStatus → Session A → Result X × Session A → Type 0
  Moves target s r =
      Holds
        (λ x t.
          ((o : Order A) × CanMove target s.tables o)
          × (t.tables ≡ with_status target s.now s.tables))
        (λ e t. (t.tables ≡ s.tables) × WhyNot target s.tables e) r

  -- The same, for what hands out the order as it was.
  abbrev pub MovesIt : OrderStatus → Session A → Result (Order A) × Session A → Type 0
  MovesIt target s r =
      Holds (λ o t. CanMove target s.tables o × (t.tables ≡ with_status target s.now s.tables))
        (λ e t. (t.tables ≡ s.tables) × WhyNot target s.tables e) r

  why_broken :
      (e : Error) (target : OrderStatus) (t : Tables A) → e ≡ database_failed → WhyNot target t e
  why_broken e target t same = rw same broken

  why_missing :
      {Lost : Type 0} (e : Error) (target : OrderStatus) (t : Tables A)
      → ((e ≡ database_failed) × Lost)
        ⊎ ((e ≡ no_rows) × (first_where (is_owned (some owner) id) t.orders ≡ none))
      → WhyNot target t (or_order_not_found e)
  why_missing e target t (inl same) = rw same.0 broken
  why_missing e target t (inr (same, missing)) = rw same (unknown missing)

  found_order :
      (target : OrderStatus) (s : Session A)
      → Holds
          (λ o t. Same s t × (first_where (is_owned (some owner) id) s.tables.orders ≡ some o))
          (λ e t. (t.tables ≡ s.tables) × WhyNot target s.tables e)
          (on_error or_order_not_found (find_owned_order (some owner) id) s)
  unfolding find_owned_order
  found_order target s =
      Holds-handled or_order_not_found _
        (one-Holds (λ t. first_where (is_owned (some owner) id) t.orders) s)
        (λ e t h. (h.0.tables, why_missing e target s.tables h.1))

  -- A transition that is checked, and then done by a statement.
  checked :
      {X : Type 0} (Q : X → Type 0) (target : OrderStatus) (m : Query A X) (s t : Session A)
      (o : Order A)
      → Same s t
      → first_where (is_owned (some owner) id) s.tables.orders ≡ some o
      → Holds (λ x u. Writes (with_status target) t u × Q x) (Broken t) (m t)
      → Holds
          (λ x u. Q x × CanMove target s.tables o × (u.tables ≡ with_status target s.now s.tables))
          (λ e u. (u.tables ≡ s.tables) × WhyNot target s.tables e)
          (after (check_transition o target t) (λ u. m))
  checked Q target m s t o same found marks =
      elim (Bool-cases (is_order_status_transition_valid o.status target)) [
        | inr invalid ↦ elim (Option-cases o.status) [
          | inl null ↦ rw (invalid, null) (failed (same.tables, at_null o found null))
          | inr (status, at) ↦
              rw (invalid, at)
                (failed (
                  same.tables,
                  not_next o status found at (λ next. ground (
                    arith,
                    invalid,
                    (is_order_status_transition_valid_iff o.status target).1 (status, at, next),
                  )),
                ))
        ]
        | inl valid ↦
            let (from, at, next) = (is_order_status_transition_valid_iff o.status target).0 valid in
            rw valid (
              Holds-mono (m t) marks
                (λ e u stopped.
                  (stopped.0.tables ∙ same.tables, why_broken e target s.tables stopped.1))
                (λ x u (writes, q). (
                  q,
                  record { found = found; from = from; at = at; next = next },
                  writes.0 ∙ rw (same.tables, same.now) refl,
                )))
      ]

  moves :
      (target : OrderStatus) (m : Query A ⊤) (s t : Session A) (o : Order A)
      → Same s t
      → first_where (is_owned (some owner) id) s.tables.orders ≡ some o
      → Holds (λ x u. Writes (with_status target) t u) (Broken t) (m t)
      → Moves target s (after (check_transition o target t) (λ u. m))
  moves target m s t o same found marks =
      Holds-mono _
        (checked (λ x. ⊤) target m s t o same found
          (Holds-mono (m t) marks (λ e u k. k) (λ x u k. (k, tt))))
        (λ e u k. k) (λ x u k. ((o, k.1), k.2))

  pub submit_order-Moves : (s : Session A) → Moves submitted s (submit_order owner id s)
  unfolding submit_order mark_order_submitted
  submit_order-Moves s =
      Holds-after _ _ (found_order submitted s) (λ e t same. same)
        (λ o t h.
          moves submitted (mark_order_submitted (some owner) id) s t o h.0 h.1
            (write-Holds (with_status submitted) t))

  pub reject_order-Moves : (s : Session A) → Moves rejected s (reject_order owner id s)
  unfolding reject_order mark_order_rejected
  reject_order-Moves s =
      Holds-after _ _ (found_order rejected s) (λ e t same. same)
        (λ o t h.
          moves rejected (mark_order_rejected (some owner) id) s t o h.0 h.1
            (write-Holds (with_status rejected) t))

  pub cancel_order-MovesIt : (s : Session A) → MovesIt cancelled s (cancel_order owner id s)
  unfolding cancel_order mark_order_cancelled
  cancel_order-MovesIt s =
      Holds-after _ _ (found_order cancelled s) (λ e t same. same)
        (λ o t h.
          Holds-mono _
            (checked (λ p. p ≡ o) cancelled _ s t o h.0 h.1
              (Holds-after (mark_order_cancelled (some owner) id t) (λ u. pure o)
                (write-Holds (with_status cancelled) t) (λ e u stopped. stopped)
                (λ x u writes. done (writes, refl))))
            (λ e u k. k) (λ p u k. (rw k.0 k.1, k.2)))

  -- SubmitOrder, RejectOrder and CancelOrder succeed only on an order of the owner that can take the
  -- status, and then change the status of that order and nothing else; CancelOrder hands the order
  -- out as it was. When one fails, it changes nothing, and the error says why.
  pub changes-Move :
      (s : Session A)
      → Moves submitted s (submit_order owner id s)
        × Moves rejected s (reject_order owner id s)
        × MovesIt cancelled s (cancel_order owner id s)
  changes-Move s = (submit_order-Moves s, reject_order-Moves s, cancel_order-MovesIt s)
