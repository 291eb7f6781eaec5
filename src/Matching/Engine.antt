-- ===== src/Matching/Engine.antt =====
-- services/matching/engine.go: matching the crossing orders of a book, and the engine's books.
-- The loop of findMatches holds both mutexes of the book throughout, so it is one step of a book;
-- a round is `match_once`. An event that it publishes is an entry of the result, in order.
-- `clock n` is what time.Now() reads for the n-th event of the call. The rounds are bounded by
-- fuel, one more than the orders and listed prices of the book, and Settling shows it is enough.
pub mod Calls
pub mod Settling
pub mod Volume
pub mod Filling
pub mod Trades
pub mod Trading
pub mod Conserved
use mathlib.Core.Option
use mogtrade_engine.Base.{
  ℕ, zero, suc, ◌+◌, Bool, true, false, ◌&&◌, Option, none, some, String, List, [], ◌∷◌, ◌==◌, ◌is◌,
  if◌then◌else◌, length, string_eq,
}
use mogtrade_engine.Base.Dict.{Dict, lookup, insert, erase}
use mogtrade_engine.Decimal.{Decimals}
use mogtrade_engine.Database.Enums.{OrderSide}
use mogtrade_engine.Matching.Heap
use mogtrade_engine.Matching.Heap.{HeapOrder, peek}
use mogtrade_engine.Matching.Book.{
  OrderEntry, Level, Ladder, OrderBook, PlaceMatchOrderParams, sell_price_list, buy_price_list,
  add_order, remove_order, new_book,
}

pub record OrderMatchedEventArgs (A : Type 0) : Type 0 where
  pub bid : String
  pub ask : String
  pub symbol : String
  pub matched_at : ℕ
  pub match_quantity : A
  pub remaining_quantity : A

-- What one round of findMatches does to the book.
pub data Round (A : Type 0) : Type 0 where
  stop : Round A
  purge : OrderBook A → Round A
  trade : OrderMatchedEventArgs A → OrderBook A → Round A

module _ (d : Decimals) where
  open d use {Amount, zero_amount, sub, min, less_than, is_zero, string}

  -- The level once its first order `e` is filled by `quantity` and evicted when nothing is left.
  unfoldable pub fill_level :
      Level Amount → OrderEntry Amount → List (OrderEntry Amount) → Amount → Level Amount
  fill_level l e rest quantity =
      let left = sub e.quantity quantity in
      record {
        total_volume = sub l.total_volume quantity;
        orders = if is_zero left then rest else record e { quantity = left } ∷ rest;
      }

  -- One side of a round, under the order of its price list.
  module _ (o : HeapOrder Amount) where
    -- The price at the head of the list has no level, or an empty one.
    unfoldable pub drop_price : Ladder Amount → Amount → Ladder Amount
    drop_price s price = record {
      levels = erase (string price) s.levels;
      prices = Heap.pop o s.prices;
    }

    -- The level goes when its last order is filled.
    unfoldable pub fill :
        Ladder Amount
        → Amount
        → Level Amount
        → OrderEntry Amount
        → List (OrderEntry Amount)
        → Amount
        → Ladder Amount
    fill s price l e rest quantity =
        if is_zero (sub e.quantity quantity) && (length rest == 0)
        then drop_price s price
        else record s { levels = insert (string price) (fill_level l e rest quantity) s.levels }

  -- The first orders of the two best queues are matched.
  unfoldable pub match_heads :
      String
      → ℕ
      → OrderBook Amount
      → Amount
      → Level Amount
      → OrderEntry Amount
      → List (OrderEntry Amount)
      → Amount
      → Level Amount
      → OrderEntry Amount
      → List (OrderEntry Amount)
      → Round Amount
  match_heads symbol now b ask_price ask_level ask asks bid_price bid_level bid bids =
      let quantity = min bid.quantity ask.quantity in
      if is_zero quantity
      then stop
      else trade
          (record {
            bid = bid.order_id;
            ask = ask.order_id;
            symbol = symbol;
            matched_at = now;
            match_quantity = quantity;
            remaining_quantity = sub ask.quantity quantity;
          })
          (record {
            asks = fill (sell_price_list d) b.asks ask_price ask_level ask asks quantity;
            bids = fill (buy_price_list d) b.bids bid_price bid_level bid bids quantity;
          })

  -- The ask queue is there; the bid queue may be stale.
  unfoldable pub match_bid :
      String
      → ℕ
      → OrderBook Amount
      → Amount
      → Level Amount
      → OrderEntry Amount
      → List (OrderEntry Amount)
      → Amount
      → Round Amount
  match_bid symbol now b ask_price ask_level ask asks bid_price =
      let stale : OrderBook Amount = record b {
        bids = drop_price (buy_price_list d) b.bids bid_price;
      } in
      elim (lookup (string bid_price) b.bids.levels) [
        | none ↦ purge stale
        | some bid_level ↦ elim bid_level.orders [
          | [] ↦ purge stale
          | bid ∷ bids ↦
              match_heads symbol now b ask_price ask_level ask asks bid_price bid_level bid bids
        ]
      ]

  -- The best prices cross.
  unfoldable pub match_crossing : String → ℕ → OrderBook Amount → Amount → Amount → Round Amount
  match_crossing symbol now b ask_price bid_price =
      let stale : OrderBook Amount = record b {
        asks = drop_price (sell_price_list d) b.asks ask_price;
      } in
      elim (lookup (string ask_price) b.asks.levels) [
        | none ↦ purge stale
        | some ask_level ↦ elim ask_level.orders [
          | [] ↦ purge stale
          | ask ∷ asks ↦ match_bid symbol now b ask_price ask_level ask asks bid_price
        ]
      ]

  unfoldable pub match_once : String → ℕ → OrderBook Amount → Round Amount
  match_once symbol now b = elim (peek b.asks.prices) [
    | none ↦ stop
    | some ask_price ↦ elim (peek b.bids.prices) [
      | none ↦ stop
      | some bid_price ↦
          if less_than bid_price ask_price
          then stop
          else match_crossing symbol now b ask_price bid_price
    ]
  ]

  -- What a round leads to, where `next` is the loop from there on.
  unfoldable pub proceed :
      (ℕ → OrderBook Amount → Option (List (OrderMatchedEventArgs Amount) × OrderBook Amount))
      → ℕ
      → OrderBook Amount
      → Round Amount
      → Option (List (OrderMatchedEventArgs Amount) × OrderBook Amount)
  proceed next n b stop = some ([], b)
  proceed next n b (purge c) = next n c
  proceed next n b (trade ev c) = Option.map (λ r. (ev ∷ r.0, r.1)) (next (suc n) c)

  unfoldable pub match_loop :
      ℕ
      → String
      → (ℕ → ℕ)
      → ℕ
      → OrderBook Amount
      → Option (List (OrderMatchedEventArgs Amount) × OrderBook Amount)
  match_loop zero symbol clock n b = none
  match_loop (suc fuel) symbol clock n b =
      proceed (match_loop fuel symbol clock) n b (match_once symbol (clock n) b)

  -- The orders that wait on one side.
  unfoldable pub waiting : Dict String (Level Amount) → ℕ
  waiting [] = 0
  waiting ((k, l) ∷ levels) = length l.orders + waiting levels

  abbrev pub ladder_work : Ladder Amount → ℕ
  ladder_work s = waiting s.levels + length s.prices

  -- A bound on the rounds of findMatches.
  abbrev pub work : OrderBook Amount → ℕ
  work b = ladder_work b.asks + ladder_work b.bids

  -- The loop of findMatches on the symbol's book.
  unfoldable pub match_book :
      String
      → (ℕ → ℕ)
      → OrderBook Amount
      → Option (List (OrderMatchedEventArgs Amount) × OrderBook Amount)
  match_book symbol clock b = match_loop (suc (work b)) symbol clock 0 b
