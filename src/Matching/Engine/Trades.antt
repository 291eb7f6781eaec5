-- ===== src/Matching/Engine/Trades.antt =====
-- Price-time priority: the abstract specification of what findMatches does to a book.
use mogtrade_engine.Base.{
  ◌≡◌, ◌⊎◌, true, false, none, some, String, List, [], ◌∷◌, string_eq, if◌then◌else◌,
}
use mogtrade_engine.Decimal.{Decimals}
use mogtrade_engine.Matching.Heap.{peek}
use mogtrade_engine.Matching.Book.{OrderEntry, Ladder, OrderBook}
use mogtrade_engine.Matching.Book.Valid.{IsBook, queue}
use mogtrade_engine.Matching.Engine.{OrderMatchedEventArgs}
use mogtrade_engine.Matching.Engine.Volume.{volume}
use mogtrade_engine.Matching.Engine.Filling.{filled}

module _ (d : Decimals) where
  open d use {
    Amount, zero_amount, add, sub, sub_add, min, min_lem, less_than, equal, is_zero, is_zero_iff,
    string,
  }

  -- One side is empty, or the best prices are apart.
  pub data IsUncrossed (b : OrderBook Amount) : Type 0 where
    no_ask : peek b.asks.prices ≡ none → IsUncrossed b
    no_bid : peek b.bids.prices ≡ none → IsUncrossed b
    apart :
        (ask_price bid_price : Amount)
        → peek b.asks.prices ≡ some ask_price
        → peek b.bids.prices ≡ some bid_price
        → less_than bid_price ask_price ≡ true
        → IsUncrossed b

  -- How a trade of `quantity` changes one side: it takes from the first order of the best queue.
  pub record TakesFirst (s t : Ladder Amount) (id : String) (quantity : Amount) (price : Amount)
      : Type 0 where
    pub best : peek s.prices ≡ some price
    pub first : OrderEntry Amount
    pub behind : List (OrderEntry Amount)
    pub waiting : queue d s price ≡ first ∷ behind
    pub named : first.order_id ≡ id
    pub fits : less_than first.quantity quantity ≡ false
    pub queues :
        (p : Amount)
        → queue d t p ≡ (if equal p price then filled d first behind quantity else queue d s p)
    pub total : add (volume d t.levels) quantity ≡ volume d s.levels

  -- One trade of the book `b`, with the event that announces it.
  pub record IsTrade (symbol : String) (b : OrderBook Amount) (ev : OrderMatchedEventArgs Amount)
      (c : OrderBook Amount) : Type 0 where
    pub ask_price : Amount
    pub bid_price : Amount
    pub crossing : less_than bid_price ask_price ≡ false
    pub of_symbol : ev.symbol ≡ symbol
    pub positive : less_than zero_amount ev.match_quantity ≡ true
    pub ask_side : TakesFirst b.asks c.asks ev.ask ev.match_quantity ask_price
    pub bid_side : TakesFirst b.bids c.bids ev.bid ev.match_quantity bid_price
    pub used_up :
        (ev.match_quantity ≡ ask_side.first.quantity)
        ⊎ (ev.match_quantity ≡ bid_side.first.quantity)
    pub remaining : add ev.remaining_quantity ev.match_quantity ≡ ask_side.first.quantity
    pub valid : IsBook d c

  -- Trades one after another, until no prices cross.
  pub data Trades (symbol : String)
      : OrderBook Amount → List (OrderMatchedEventArgs Amount) → OrderBook Amount → Type 0 where
    settled : {b : OrderBook Amount} → IsBook d b → IsUncrossed b → Trades symbol b [] b
    traded :
        {b c e : OrderBook Amount} {ev : OrderMatchedEventArgs Amount}
        {evs : List (OrderMatchedEventArgs Amount)}
        → IsTrade symbol b ev c
        → Trades symbol c evs e
        → Trades symbol b (ev ∷ evs) e
