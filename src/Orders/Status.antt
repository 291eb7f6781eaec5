-- ===== src/Orders/Status.antt =====
-- services/orders/service.go: which changes of an order's status are valid, against a step
-- relation on the statuses.
use mogtrade_engine.Base.{
  ℕ, ◌≡◌, ◌<◌, ◌↔◌, ◌||◌, refl, Bool, true, false, Option, none, some, List, [], ◌∷◌, arith, ◌is◌,
}
use mogtrade_engine.Database.Enums.{
  OrderStatus, pending, submitted, partially_filled, filled, cancelled, rejected, expired,
  order_status_eq,
}

-- slices.Contains
unfoldable pub contains : List OrderStatus → OrderStatus → Bool
contains [] status = false
contains (x ∷ xs) status = (x is status) || contains xs status

-- isOrderStatusTransitionValid on the status of the order
unfoldable pub is_order_status_transition_valid : Option OrderStatus → OrderStatus → Bool
is_order_status_transition_valid none status = false
is_order_status_transition_valid (some pending) status =
    contains (cancelled ∷ rejected ∷ submitted ∷ expired ∷ []) status
is_order_status_transition_valid (some submitted) status =
    contains (partially_filled ∷ filled ∷ cancelled ∷ rejected ∷ expired ∷ []) status
is_order_status_transition_valid (some partially_filled) status =
    contains (filled ∷ cancelled ∷ []) status
is_order_status_transition_valid (some filled) status = false
is_order_status_transition_valid (some cancelled) status = false
is_order_status_transition_valid (some rejected) status = false
is_order_status_transition_valid (some expired) status = false

-- The life of an order.
pub data Next : OrderStatus → OrderStatus → Type 0 where
  submit : Next pending submitted
  reject_pending : Next pending rejected
  cancel_pending : Next pending cancelled
  expire_pending : Next pending expired
  fill_some : Next submitted partially_filled
  fill_all : Next submitted filled
  reject_submitted : Next submitted rejected
  cancel_submitted : Next submitted cancelled
  expire_submitted : Next submitted expired
  fill_rest : Next partially_filled filled
  cancel_rest : Next partially_filled cancelled

allowed :
    (from to : OrderStatus) → Next from to → is_order_status_transition_valid (some from) to ≡ true
unfolding is_order_status_transition_valid contains
allowed from to submit = refl
allowed from to reject_pending = refl
allowed from to cancel_pending = refl
allowed from to expire_pending = refl
allowed from to fill_some = refl
allowed from to fill_all = refl
allowed from to reject_submitted = refl
allowed from to cancel_submitted = refl
allowed from to expire_submitted = refl
allowed from to fill_rest = refl
allowed from to cancel_rest = refl

only_allowed :
    (from to : OrderStatus) → is_order_status_transition_valid (some from) to ≡ true → Next from to
unfolding is_order_status_transition_valid contains
only_allowed pending submitted h = submit
only_allowed pending rejected h = reject_pending
only_allowed pending cancelled h = cancel_pending
only_allowed pending expired h = expire_pending
only_allowed submitted partially_filled h = fill_some
only_allowed submitted filled h = fill_all
only_allowed submitted rejected h = reject_submitted
only_allowed submitted cancelled h = cancel_submitted
only_allowed submitted expired h = expire_submitted
only_allowed partially_filled filled h = fill_rest
only_allowed partially_filled cancelled h = cancel_rest
only_allowed pending pending h = absurd (ground arith)
only_allowed pending partially_filled h = absurd (ground arith)
only_allowed pending filled h = absurd (ground arith)
only_allowed submitted pending h = absurd (ground arith)
only_allowed submitted submitted h = absurd (ground arith)
only_allowed partially_filled pending h = absurd (ground arith)
only_allowed partially_filled submitted h = absurd (ground arith)
only_allowed partially_filled partially_filled h = absurd (ground arith)
only_allowed partially_filled rejected h = absurd (ground arith)
only_allowed partially_filled expired h = absurd (ground arith)
only_allowed filled to h = absurd (ground arith)
only_allowed cancelled to h = absurd (ground arith)
only_allowed rejected to h = absurd (ground arith)
only_allowed expired to h = absurd (ground arith)

-- isOrderStatusTransitionValid accepts exactly the steps of an order's life, from a status that
-- is there.
pub is_order_status_transition_valid_iff :
    (from : Option OrderStatus) (to : OrderStatus)
    → (is_order_status_transition_valid from to ≡ true)
      ↔ ((status : OrderStatus) × (from ≡ some status) × Next status to)
unfolding is_order_status_transition_valid
is_order_status_transition_valid_iff none to =
    (λ h. absurd (ground arith), λ r. absurd (ground (arith, r.1)))
is_order_status_transition_valid_iff (some from) to = (
  λ h. (from, refl, only_allowed from to h),
  λ r. let same : from ≡ r.0 = ground (arith, r.1) in rw same (allowed r.0 to r.2),
)

-- How far an order is in its life.
unfoldable pub stage : OrderStatus → ℕ
stage pending = 0
stage submitted = 1
stage partially_filled = 2
stage filled = 3
stage cancelled = 3
stage rejected = 3
stage expired = 3

-- Each valid change takes an order further: none comes back to a status that it had, and an
-- order that is filled, cancelled, rejected or expired stays so.
pub transition-stage :
    (from to : OrderStatus)
    → is_order_status_transition_valid (some from) to ≡ true
    → stage from < stage to
unfolding stage is_order_status_transition_valid contains
transition-stage from to h = ground arith
