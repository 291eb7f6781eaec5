-- ===== src/Matching/Book/Valid.antt =====
-- The invariant of a side of the book: the heap of prices lists exactly the prices of the levels,
-- and each level is a queue of positive quantities whose sum is its volume.
use mogtrade_engine.Base.{
  ◌<◌, ◌≡◌, true, none, some, String, List, [], ◌∷◌, map, Perm, All, length, string_eq,
}
use mogtrade_engine.Base.Dict.{keys, Entries, IsDistinct, lookup}
use mogtrade_engine.Decimal.{Decimals}
use mogtrade_engine.Matching.Heap.{HeapOrder}
use mogtrade_engine.Matching.Heap.Order.{IsOrdered}
use mogtrade_engine.Matching.Book.{
  OrderEntry, Level, Ladder, OrderBook, sell_price_list, buy_price_list,
}

module _ (d : Decimals) where
  open d use {Amount, zero_amount, add, less_than, string}

  -- The quantities of a queue, added up.
  unfoldable pub sum_of : List (OrderEntry Amount) → Amount
  sum_of [] = zero_amount
  sum_of (e ∷ es) = add e.quantity (sum_of es)

  abbrev pub IsPositive : OrderEntry Amount → Type 0
  IsPositive e = less_than zero_amount e.quantity ≡ true

  pub record IsLevel (l : Level Amount) : Type 0 where
    pub waiting : 0 < length l.orders
    pub volume : l.total_volume ≡ sum_of l.orders
    pub positive : All IsPositive l.orders

  abbrev pub EntryIsLevel : String → Level Amount → Type 0
  EntryIsLevel key l = IsLevel l

  pub record IsLadder (o : HeapOrder Amount) (s : Ladder Amount) : Type 0 where
    pub ordered : IsOrdered o s.prices
    pub indexed : Perm (map string s.prices) (keys s.levels)
    pub distinct : IsDistinct s.levels
    pub queued : Entries EntryIsLevel s.levels

  -- The orders that wait at a price, first come first.
  unfoldable pub queue : Ladder Amount → Amount → List (OrderEntry Amount)
  queue s price = elim (lookup (string price) s.levels) [ none ↦ [] | some l ↦ l.orders ]

  pub record IsBook (b : OrderBook Amount) : Type 0 where
    pub asks_valid : IsLadder (sell_price_list d) b.asks
    pub bids_valid : IsLadder (buy_price_list d) b.bids
