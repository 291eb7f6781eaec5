-- ===== src/Matching/Book/Remove.antt =====
-- RemoveOrder takes out the first order with the id at the price, and keeps the invariant.
use mathlib.Core.HLevel.{⊥_prop}
use mathlib.Core.Logic.{∥∥₁_elim}
use mathlib.Core.Logic.Or
use mathlib.Core.List.{mem-cons, not-mem-nil, mem-map, Mem-prop}
use mathlib.Core.Path.{subst}
use mathlib.Core.List.Perm
use mogtrade_engine.Base.{
  ℕ, suc, ◌-◌, ◌<◌, ◌≡◌, ◌∙◌, ap, none, some, inl, inr, String, List, [], ◌∷◌, Mem, Perm, All,
  arith, length, nth, Option-cases, Bool-cases, string_eq, ◌is◌, ◌==◌,
}
use mogtrade_engine.Base.Dict.{
  lookup, mem-keys, keys-insert_old, keys-erase-perm, Entries-insert, Entries-lookup, Entries-erase,
  insert-IsDistinct, erase-IsDistinct,
}
use mogtrade_engine.Database.Enums.{OrderSide, side_sell}
use mogtrade_engine.Decimal.{Decimals}
use mogtrade_engine.Matching.Heap.{HeapOrder}
use mogtrade_engine.Matching.Heap.Order.{IsOrdered}
use mogtrade_engine.Matching.Heap.Removal.{remove-perm, remove-IsOrdered}
use mogtrade_engine.Matching.Book.{
  Level, Ladder, OrderBook, sell_price_list, buy_price_list, index_of, take_order, remove_price,
  drop_order, remove_from, remove_order,
}
use mogtrade_engine.Matching.Book.Valid.{sum_of, IsPositive, EntryIsLevel, IsLadder, IsBook}
use mogtrade_engine.Matching.Book.Taken.{take_order-Taken, Taken-sum, Taken-IsPositive}

module _ (d : Decimals) where
  open d use {
    Amount, zero_amount, add, sub, less_than, equal, equal_iff, string, string-injective, add_comm,
    add_assoc, add_zero,
  }

  -- A price that is listed is found, at its position.
  index_of-at :
      (v price : Amount) (ps : List Amount) (i : ℕ)
      → index_of d price ps ≡ some i
      → (i < length ps) × (nth v ps i ≡ price)
  unfolding index_of nth
  index_of-at v price [] i h = absurd (ground arith)
  index_of-at v price (p ∷ ps) i h = elim (Bool-cases (equal p price)) [
    | inl eq ↦ let first : i ≡ 0 = ground arith in rw first (omega arith, (equal_iff p price).0 eq)
    | inr ne ↦ elim (Option-cases (index_of d price ps)) [
      | inl nothing ↦ absurd (ground arith)
      | inr (j, found) ↦
          let next : i ≡ suc j = ground arith in
          let ih = index_of-at v price ps j found in rw next (omega arith, ih.1)
    ]
  ]

  pub index_of-none :
      (price : Amount) (ps : List Amount) → index_of d price ps ≡ none → Mem price ps → ⊥
  unfolding index_of
  index_of-none price [] h m = not-mem-nil m
  index_of-none price (p ∷ ps) h m =
      Or.elim ⊥_prop (mem-cons.0 m) (λ same. ground (arith, equal_iff p price))
        (λ n. index_of-none price ps (ground (arith)) n)

  module _ (o : HeapOrder Amount) where
    remove_price-perm :
        (ps : List Amount) (price : Amount)
        → Mem price ps
        → Perm (price ∷ remove_price d o ps price) ps
    unfolding remove_price
    remove_price-perm ps price m = elim (Option-cases (index_of d price ps)) [
      | inl nothing ↦ absurd (index_of-none price ps nothing m)
      | inr (i, found) ↦
          let at = index_of-at o.absent price ps i found in
          rw (found, remove_price)
            (rw at.1 at (remove-perm o (length ps - 1) ps (omega arith) i (omega arith)))
    ]

    remove_price-IsOrdered :
        (ps : List Amount) (price : Amount)
        → IsOrdered o ps
        → IsOrdered o (remove_price d o ps price)
    unfolding remove_price
    remove_price-IsOrdered ps price order = elim (Option-cases (index_of d price ps)) [
      | inl nothing ↦ rw (nothing, remove_price) order
      | inr (i, found) ↦
          let at = index_of-at o.absent price ps i found in
          rw (found, remove_price)
            (remove-IsOrdered o (length ps - 1) ps (omega arith) i (omega arith) order)
    ]

    -- The price of a level is in the heap.
    pub mem-prices :
        (s : Ladder Amount) (price : Amount) (l : Level Amount)
        → IsLadder d o s
        → lookup (string price) s.levels ≡ some l
        → Mem price s.prices
    mem-prices s price l v found =
        let listed = (Perm.mem_iff v.indexed).1 (mem-keys (string price) l s.levels found) in
        ∥∥₁_elim (mem-map.0 listed) (Mem-prop)
          (λ r. subst (λ q. Mem q s.prices) (string-injective r.0 price r.2) r.1)

    -- A level with its remaining queue: empty levels go with their price, others stay.
    drop_order-IsLadder :
        (s : Ladder Amount) (price : Amount) (old l : Level Amount)
        → IsLadder d o s
        → lookup (string price) s.levels ≡ some old
        → l.total_volume ≡ sum_of d l.orders
        → All (IsPositive d) l.orders
        → IsLadder d o (drop_order d o s price l)
    unfolding drop_order
    drop_order-IsLadder s price old l v found volume positive =
        let key = string price in
        elim (Bool-cases (length l.orders == 0)) [
          | inl empty ↦
              rw (empty, drop_order)
                (record {
                  ordered = remove_price-IsOrdered s.prices price v.ordered;
                  indexed = Perm.cons_inv (
                      Perm.trans
                        (Perm.map string
                          (remove_price-perm s.prices price (mem-prices s price old v found)))
                        (Perm.trans v.indexed
                          (Perm.symm (keys-erase-perm key old s.levels found))));
                  distinct = erase-IsDistinct key s.levels v.distinct;
                  queued = Entries-erase (EntryIsLevel d) key s.levels v.queued;
                })
          | inr some_left ↦
              rw (some_left, drop_order)
                (record {
                  ordered = v.ordered;
                  indexed = rw (keys-insert_old key l old s.levels found) v.indexed;
                  distinct = insert-IsDistinct key l s.levels v.distinct;
                  queued =
                      Entries-insert (EntryIsLevel d) key l s.levels v.queued
                        (record { waiting = ground arith; volume = volume; positive = positive });
                })
        ]

    pub remove_from-IsLadder :
        (s : Ladder Amount) (id : String) (price : Amount)
        → IsLadder d o s
        → IsLadder d o (remove_from d o s id price).0
    unfolding remove_from
    remove_from-IsLadder s id price v = elim (Option-cases (lookup (string price) s.levels)) [
      | inl no_level ↦ rw (no_level, remove_from) v
      | inr (l, found) ↦ elim (Option-cases (take_order d id l.orders)) [
        | inl no_order ↦ rw (found, no_order, remove_from) v
        | inr (r, taken) ↦
            let level = Entries-lookup (EntryIsLevel d) (string price) l s.levels v.queued found in
            let t = take_order-Taken d id l.orders r.0 r.1 taken in
            rw (found, taken, remove_from)
              (drop_order-IsLadder s price l _ v found
                (ap (λ t. sub t r.0.quantity) level.volume ∙ Taken-sum d id l.orders r.0 r.1 t)
                (Taken-IsPositive d id l.orders r.0 r.1 t level.positive))
      ]
    ]

  -- RemoveOrder keeps a book valid, whether or not it finds the order.
  pub remove_order-IsBook :
      (b : OrderBook Amount) (id : String) (side : OrderSide) (price : Amount)
      → IsBook d b
      → IsBook d (remove_order d b id side price).0
  unfolding remove_order
  remove_order-IsBook b id side price v = elim (Bool-cases (side is side_sell)) [
    | inl sell ↦ rw sell (record {
      asks_valid = remove_from-IsLadder (sell_price_list d) b.asks id price v.asks_valid;
      bids_valid = v.bids_valid;
    })
    | inr buy ↦ rw buy (record {
      asks_valid = v.asks_valid;
      bids_valid = remove_from-IsLadder (buy_price_list d) b.bids id price v.bids_valid;
    })
  ]
