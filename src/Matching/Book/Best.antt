-- ===== src/Matching/Book/Best.antt =====
-- BestAsk and BestBid report the level that comes first, whole.
use mathlib.Core.List.Perm
use mathlib.Core.List.{mem-map_of_mem, mem-cons_self, not-mem-nil}
use mogtrade_engine.Base.{
  ◌<◌, ◌≡◌, ◌⊎◌, refl, none, some, true, false, inl, inr, List, [], ◌∷◌, Mem, arith, length, nth,
  nth-mem, Option-cases, string_eq,
}
use mogtrade_engine.Base.Dict.{lookup, lookup-of_mem-keys, Entries-lookup}
use mogtrade_engine.Decimal.{Decimals}
use mogtrade_engine.Matching.Heap.{HeapOrder, peek}
use mogtrade_engine.Matching.Heap.Order.{IsOrdered, root_first}
use mogtrade_engine.Matching.Book.{
  Level, Ladder, OrderBook, PriceLevel, sell_price_list, buy_price_list, best_of, best_ask,
  best_bid,
}
use mogtrade_engine.Matching.Book.Valid.{sum_of, IsLevel, EntryIsLevel, IsLadder, IsBook, queue}
use mogtrade_engine.Matching.Book.Remove.{mem-prices}

module _ (d : Decimals) (o : HeapOrder d.Amount) where
  open d use {Amount, string}

  pub mem_first :
      (ps : List Amount) (price q : Amount)
      → IsOrdered o ps
      → peek ps ≡ some price
      → Mem q ps
      → o.less q price ≡ false
  unfolding peek nth
  mem_first [] price q order first m = absurd (ground arith)
  mem_first (p ∷ ps) price q order first m =
      let root : p ≡ price = ground arith in
      rw (← root) (
        nth-mem o.absent (λ x. o.less x p) (p ∷ ps) (root_first o (length (p ∷ ps)) (p ∷ ps) order)
          q m)

  peek-mem : (ps : List Amount) (price : Amount) → peek ps ≡ some price → Mem price ps
  unfolding peek
  peek-mem [] price first = absurd (ground arith)
  peek-mem (p ∷ ps) price first = let root : p ≡ price = ground arith in rw root mem-cons_self

  -- The head of the price list has a level.
  pub peek-level :
      (s : Ladder Amount) (price : Amount)
      → IsLadder d o s
      → peek s.prices ≡ some price
      → (l : Level Amount) × (lookup (string price) s.levels ≡ some l) × IsLevel d l
  peek-level s price v first =
      let listed =
        (Perm.mem_iff v.indexed).0 (mem-map_of_mem string (peek-mem s.prices price first)) in
      elim (Option-cases (lookup (string price) s.levels)) [
        | inl missing ↦ absurd (lookup-of_mem-keys (string price) s.levels listed missing)
        | inr (l, found) ↦
            (l, found, Entries-lookup (EntryIsLevel d) (string price) l s.levels v.queued found)
      ]

  -- No price with a level comes before the head of the price list.
  pub peek-first :
      (s : Ladder Amount) (price q : Amount) (l : Level Amount)
      → IsLadder d o s
      → peek s.prices ≡ some price
      → lookup (string q) s.levels ≡ some l
      → o.less q price ≡ false
  peek-first s price q l v first found =
      mem_first s.prices price q v.ordered first (mem-prices d o s q l v found)

  -- What a report of the best level says of its side.
  pub record IsBest (s : Ladder Amount) (r : PriceLevel Amount) : Type 0 where
    pub present : r.valid ≡ true
    pub whole_queue : r.orders ≡ queue d s r.price
    pub waiting : 0 < length r.orders
    pub volume : r.total_volume ≡ sum_of d r.orders
    pub first :
        (q : Amount) (l : Level Amount)
        → lookup (string q) s.levels ≡ some l
        → o.less q r.price ≡ false

  pub best_of-IsBest :
      (s : Ladder Amount) (price : Amount)
      → IsLadder d o s
      → peek s.prices ≡ some price
      → IsBest s (best_of d s)
  unfolding best_of queue
  best_of-IsBest s price v first =
      let (l, found, level) = peek-level s price v first in
      rw (first, found, best_of)
        (record {
          present = refl;
          whole_queue = rw (found, queue);
          waiting = level.waiting;
          volume = level.volume;
          first = λ q k other. peek-first s price q k v first other;
        })

  peek-none : (ps : List Amount) (q : Amount) → peek ps ≡ none → Mem q ps → ⊥
  unfolding peek
  peek-none [] q nothing m = not-mem-nil m
  peek-none (p ∷ ps) q nothing m = ground arith

  -- A side that lists no price has no level.
  pub no_level :
      (s : Ladder Amount) (q : Amount)
      → IsLadder d o s
      → peek s.prices ≡ none
      → lookup (string q) s.levels ≡ none
  no_level s q v nothing = elim (Option-cases (lookup (string q) s.levels)) [
    | inl missing ↦ missing
    | inr (l, found) ↦ absurd (peek-none s.prices q nothing (mem-prices d o s q l v found))
  ]

  -- A report is of the best level, or says that there is none.
  abbrev pub IsReport : Ladder Amount → PriceLevel Amount → Type 0
  IsReport s r =
      IsBest s r ⊎ ((r.valid ≡ false) × ((q : Amount) → lookup (string q) s.levels ≡ none))

  best_of-IsReport : (s : Ladder Amount) → IsLadder d o s → IsReport s (best_of d s)
  unfolding best_of
  best_of-IsReport s v = elim (Option-cases (peek s.prices)) [
    | inl nothing ↦ inr (rw (nothing, best_of) refl, λ q. no_level s q v nothing)
    | inr (price, first) ↦ inl (best_of-IsBest s price v first)
  ]

module _ (d : Decimals) where
  open d use {Amount}

  -- BestAsk reports a whole queue at a price that no other ask undercuts, with its sum; it
  -- reports nothing exactly when there is no ask. BestBid does so for the highest bid.
  pub best_prices :
      (b : OrderBook Amount)
      → IsBook d b
      → IsReport d (sell_price_list d) b.asks (best_ask d b)
        × IsReport d (buy_price_list d) b.bids (best_bid d b)
  unfolding best_ask best_bid
  best_prices b v = (
    best_of-IsReport d (sell_price_list d) b.asks v.asks_valid,
    best_of-IsReport d (buy_price_list d) b.bids v.bids_valid,
  )
