-- ===== src/Matching/Book/Queues.antt =====
-- What AddOrder and RemoveOrder do to the queue of each price.
use mathlib.Core.Logic.{◌≢◌}
use mogtrade_engine.Base.{
  ◌≡◌, ◌∙◌, refl, Bool, true, false, none, inl, inr, String, List, [], ◌∷◌, ◌++◌, All, arith,
  length, Option-cases, Bool-cases, string_eq, ◌is◌, is_refl, ◌==◌, if◌then◌else◌,
}
use mogtrade_engine.Base.Dict.{
  lookup, insert, erase, lookup-insert, lookup-erase_ne, lookup-erase_self, IsDistinct,
}
use mogtrade_engine.Database.Enums.{OrderSide, side_sell}
use mogtrade_engine.Decimal.{Decimals}
use mogtrade_engine.Matching.Heap
use mogtrade_engine.Matching.Heap.{HeapOrder}
use mogtrade_engine.Matching.Book.{
  OrderEntry, Level, Ladder, OrderBook, PlaceMatchOrderParams, sell_price_list, buy_price_list,
  new_level, entry_of, enqueue, take_order, add_to, drop_order, remove_from, add_order,
  remove_order,
}
use mogtrade_engine.Matching.Book.Valid.{queue, IsBook}
use mogtrade_engine.Matching.Book.Taken.{Taken, take_order-Taken}

module _ (d : Decimals) where
  open d use {Amount, zero_amount, equal, equal_iff, string, string-injective}

  different : (p price : Amount) → equal p price ≡ false → string p ≢ string price
  different p price other same = ground (arith, string-injective p price same, equal_iff p price)

  apart : (p price : Amount) → equal p price ≡ false → (string price is string p) ≡ false
  apart p price other =
      ground (arith, different p price other, string_eq.beq_iff (string price) (string p))

  module _ (s : Ladder Amount) (price p : Amount) (prices : List Amount) where
    -- The queue of each price once the level of one of them is gone, or replaced.
    pub queue-erase :
        IsDistinct s.levels
        → queue d (record { levels = erase (string price) s.levels; prices = prices }) p
          ≡ (if equal p price then [] else queue d s p)
    unfolding queue
    queue-erase distinct = elim (Bool-cases (equal p price)) [
      | inl same ↦ rw ((equal_iff p price).0 same) (
          rw (lookup-erase_self (string price) s.levels distinct, queue)
            (rw ((equal_iff price price).1 refl)))
      | inr other ↦ rw (
        other,
        lookup-erase_ne (string p) (string price) s.levels (different p price other),
        queue,
      )
    ]

    pub queue-insert :
        (l : Level Amount)
        → queue d (record { levels = insert (string price) l s.levels; prices = prices }) p
          ≡ (if equal p price then l.orders else queue d s p)
    unfolding queue
    queue-insert l = elim (Bool-cases (equal p price)) [
      | inl same ↦ rw ((equal_iff p price).0 same) (
          rw (lookup-insert (string price) (string price) l s.levels, queue)
            (rw (is_refl (string price), (equal_iff price price).1 refl)))
      | inr other ↦
          rw (other, lookup-insert (string price) (string p) l s.levels, apart p price other, queue)
    ]

  module _ (o : HeapOrder Amount) (s : Ladder Amount) where
    -- The order joins the end of the queue at its price, and no other queue changes.
    pub add_to-queue :
        (r : PlaceMatchOrderParams Amount) (p : Amount)
        → queue d (add_to d o s r) p
          ≡ (if equal p r.price then queue d s r.price ++ entry_of d r ∷ [] else queue d s p)
    unfolding add_to queue
    add_to-queue r p = elim (Option-cases (lookup (string r.price) s.levels)) [
      | inl fresh ↦
          rw (fresh, add_to, queue)
            (queue-insert s r.price p (Heap.push o s.prices r.price) (enqueue d (new_level d) r))
      | inr (l, old) ↦ rw (old, add_to, queue) (queue-insert s r.price p s.prices (enqueue d l r))
    ]

  -- The queue of a price on the side where an order has been added.
  unfoldable pub joined :
      Ladder Amount → PlaceMatchOrderParams Amount → Amount → List (OrderEntry Amount)
  joined s r p = if equal p r.price then queue d s r.price ++ entry_of d r ∷ [] else queue d s p

  -- No order at the price has the id and nothing changes, or the first one is taken out of its
  -- queue, no other queue changes, and the result has its quantity.
  pub data Removal (s : Ladder Amount) (id : String) (price : Amount)
      : Ladder Amount × Bool × Amount → Type 0 where
    unknown :
        All (λ e. (e.order_id is id) ≡ false) (queue d s price)
        → Removal s id price (s, false, zero_amount)
    removed :
        (t : Ladder Amount) (e : OrderEntry Amount) (rest : List (OrderEntry Amount))
        → Taken d id (queue d s price) e rest
        → ((p : Amount) → queue d t p ≡ (if equal p price then rest else queue d s p))
        → Removal s id price (t, true, e.quantity)

  take_order-none :
      (id : String) (es : List (OrderEntry Amount))
      → take_order d id es ≡ none
      → All (λ e. (e.order_id is id) ≡ false) es
  unfolding take_order
  take_order-none id [] h = tt
  take_order-none id (e ∷ es) h = ground (arith, take_order-none id es)

  empty_orders : (es : List (OrderEntry Amount)) → (length es == 0) ≡ true → es ≡ []
  empty_orders [] h = refl
  empty_orders (e ∷ es) h = absurd (ground arith)

  drop_order-queue :
      (o : HeapOrder Amount) (s : Ladder Amount) (price : Amount) (l : Level Amount) (p : Amount)
      → IsDistinct s.levels
      → queue d (drop_order d o s price l) p ≡ (if equal p price then l.orders else queue d s p)
  unfolding drop_order
  drop_order-queue o s price l p distinct = elim (Bool-cases (length l.orders == 0)) [
    | inl empty ↦
        rw (empty, drop_order) (queue-erase s price p _ distinct ∙ rw (empty_orders l.orders empty))
    | inr some_left ↦ rw (some_left, drop_order) (queue-insert s price p s.prices l)
  ]

  pub remove_from-Removal :
      (o : HeapOrder Amount) (s : Ladder Amount) (id : String) (price : Amount)
      → IsDistinct s.levels
      → Removal s id price (remove_from d o s id price)
  unfolding remove_from queue
  remove_from-Removal o s id price distinct = elim (Option-cases (lookup (string price) s.levels)) [
    | inl no_level ↦ rw (no_level, remove_from) (unknown (rw (no_level, queue) tt))
    | inr (l, found) ↦ elim (Option-cases (take_order d id l.orders)) [
      | inl no_order ↦
          rw (found, no_order, remove_from)
            (unknown (rw (found, queue) (take_order-none id l.orders no_order)))
      | inr (r, taken) ↦
          rw (found, taken, remove_from)
            (removed _ r.0 r.1 (rw (found, queue) (take_order-Taken d id l.orders r.0 r.1 taken))
              (λ p. drop_order-queue o s price _ p distinct))
    ]
  ]

  -- AddOrder puts the order at the end of the queue of its price, on its side of the book; every
  -- other queue, of that side and of the other, stays.
  pub add_order-queue :
      (b : OrderBook Amount) (r : PlaceMatchOrderParams Amount) (p : Amount)
      → (queue d (add_order d b r).asks p
          ≡ (if r.side is side_sell then joined b.asks r p else queue d b.asks p))
        × (queue d (add_order d b r).bids p
            ≡ (if r.side is side_sell then queue d b.bids p else joined b.bids r p))
  unfolding add_order joined
  add_order-queue b r p = elim (Bool-cases (r.side is side_sell)) [
    | inl sell ↦ rw sell (add_to-queue (sell_price_list d) b.asks r p, refl)
    | inr buy ↦ rw buy (refl, add_to-queue (buy_price_list d) b.bids r p)
  ]

  -- On a valid book RemoveOrder looks in the queue of the price on the side it is told, finds
  -- nothing and changes nothing, or takes the first order with the id out and reports its quantity; every other queue,
  -- of that side and of the other, stays.
  pub remove_order-queue :
      (b : OrderBook Amount) (id : String) (side : OrderSide) (price : Amount)
      → IsBook d b
      → (s : Ladder Amount) × (r : Bool × Amount) × Removal
          (if side is side_sell then b.asks else b.bids)
          id
          price
          (s, r.0, r.1)
        × (remove_order d b id side price ≡ (
          (if side is side_sell then record b { asks = s } else record b { bids = s }),
          r.0,
          r.1,
        ))
  unfolding remove_order
  remove_order-queue b id side price v = elim (Bool-cases (side is side_sell)) [
    | inl sell ↦
        rw sell (
          _,
          _,
          remove_from-Removal (sell_price_list d) b.asks id price v.asks_valid.distinct,
          refl,
        )
    | inr buy ↦
        rw buy
          (_, _, remove_from-Removal (buy_price_list d) b.bids id price v.bids_valid.distinct, refl)
  ]
