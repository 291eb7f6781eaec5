-- ===== src/Matching/Book.antt =====
-- services/matching/book.go: the two sides of an order book. The source spells each operation out
-- for asks and again for bids, on `asks` with `sellPrices` and on `bids` with `bidPrices`; here a
-- `Ladder` is such a pair, and an operation on it takes the order of its price list.
-- The mutexes are taken around each whole operation and the list `orders` is never used.
pub mod Valid
pub mod Add
pub mod Taken
pub mod Remove
pub mod Queues
pub mod Best
use mathlib.Core.Option
use mogtrade_engine.Base.{
  ℕ, suc, Bool, true, false, Option, none, some, String, List, [], ◌∷◌, ◌++◌, ◌==◌, ◌is◌,
  if◌then◌else◌, length, string_eq,
}
use mogtrade_engine.Base.Dict.{Dict, lookup, insert, erase}
use mogtrade_engine.Decimal.{Decimals}
use mogtrade_engine.Decimal.Laws.{lt_asym, ge_trans, gt_asym, gt_irrefl, le_trans}
use mogtrade_engine.Database.Enums.{OrderSide, side_sell}
use mogtrade_engine.Matching.Heap
use mogtrade_engine.Matching.Heap.{HeapOrder, peek}

pub record OrderEntry (A : Type 0) : Type 0 where
  pub order_id : String
  pub side : OrderSide
  pub quantity : A

-- priceLevel
pub record Level (A : Type 0) : Type 0 where
  pub total_volume : A
  pub orders : List (OrderEntry A)

pub record PriceLevel (A : Type 0) : Type 0 where
  pub valid : Bool
  pub total_volume : A
  pub orders : List (OrderEntry A)
  pub price : A

pub record Ladder (A : Type 0) : Type 0 where
  pub levels : Dict String (Level A)
  pub prices : List A

pub record OrderBook (A : Type 0) : Type 0 where
  pub bids : Ladder A
  pub asks : Ladder A

pub record PlaceMatchOrderParams (A : Type 0) : Type 0 where
  pub order_id : String
  pub symbol : String
  pub side : OrderSide
  pub quantity : A
  pub price : A

module _ (d : Decimals) where
  open d use {Amount, zero_amount, add, sub, less_than, greater_than, equal, string, lt_irrefl}

  -- sellPriceList.Less
  abbrev pub sell_price_list : HeapOrder Amount
  sell_price_list = record {
    less = less_than;
    absent = zero_amount;
    less_asym = lt_asym d;
    less_irrefl = lt_irrefl;
    ge_trans = ge_trans d;
  }

  -- buyPriceList.Less
  abbrev pub buy_price_list : HeapOrder Amount
  buy_price_list = record {
    less = greater_than;
    absent = zero_amount;
    less_asym = gt_asym d;
    less_irrefl = gt_irrefl d;
    ge_trans = le_trans d;
  }

  abbrev new_level : Level Amount
  new_level = record { total_volume = zero_amount; orders = [] }

  abbrev entry_of : PlaceMatchOrderParams Amount → OrderEntry Amount
  entry_of p = record { order_id = p.order_id; side = p.side; quantity = p.quantity }

  -- The order joins the queue of its price.
  abbrev enqueue : Level Amount → PlaceMatchOrderParams Amount → Level Amount
  enqueue l p = record {
    total_volume = add l.total_volume p.quantity;
    orders = l.orders ++ entry_of p ∷ [];
  }

  -- The first position whose price is equal.
  unfoldable pub index_of : Amount → List Amount → Option ℕ
  index_of price [] = none
  index_of price (p ∷ ps) = if equal p price then some 0 else Option.map suc (index_of price ps)

  -- The first entry with the id, and the queue without it.
  unfoldable pub take_order :
      String → List (OrderEntry Amount) → Option (OrderEntry Amount × List (OrderEntry Amount))
  take_order id [] = none
  take_order id (e ∷ es) =
      if e.order_id is id then some (e, es) else Option.map (λ r. (r.0, e ∷ r.1)) (take_order id es)

  -- One side of the book, under the order of its price list.
  module _ (o : HeapOrder Amount) where
    -- One branch of AddOrder
    unfoldable pub add_to : Ladder Amount → PlaceMatchOrderParams Amount → Ladder Amount
    add_to s p =
        let key = string p.price in
        elim (lookup key s.levels) [
          | none ↦ record {
            levels = insert key (enqueue new_level p) s.levels;
            prices = Heap.push o s.prices p.price;
          }
          | some l ↦ record s { levels = insert key (enqueue l p) s.levels }
        ]

    -- removeSellPriceFromHeap, removeBuyPriceFromHeap
    unfoldable pub remove_price : List Amount → Amount → List Amount
    unfolding index_of
    remove_price prices price = elim (index_of price prices) [
      | none ↦ prices
      | some i ↦ Heap.remove o prices i
    ]

    -- What RemoveOrder leaves of a level and its side, once the entry is out of the queue.
    unfoldable pub drop_order : Ladder Amount → Amount → Level Amount → Ladder Amount
    drop_order s price l =
        let key = string price in
        if length l.orders == 0
        then record { levels = erase key s.levels; prices = remove_price s.prices price }
        else record s { levels = insert key l s.levels }

    -- One branch of RemoveOrder
    unfoldable pub remove_from : Ladder Amount → String → Amount → Ladder Amount × Bool × Amount
    remove_from s id price = elim (lookup (string price) s.levels) [
      | none ↦ (s, false, zero_amount)
      | some l ↦ elim (take_order id l.orders) [
        | none ↦ (s, false, zero_amount)
        | some (e, rest) ↦
            let left : Level Amount = record {
              total_volume = sub l.total_volume e.quantity;
              orders = rest;
            } in
            (drop_order s price left, true, e.quantity)
      ]
    ]

  -- bestAskLocked, bestBidLocked
  unfoldable pub best_of : Ladder Amount → PriceLevel Amount
  best_of s = elim (peek s.prices) [
    | none ↦ record { valid = false; total_volume = zero_amount; orders = []; price = zero_amount }
    | some p ↦ elim (lookup (string p) s.levels) [
      | none ↦ record { valid = true; total_volume = zero_amount; orders = []; price = zero_amount }
      | some l ↦ record {
        valid = true;
        total_volume = l.total_volume;
        orders = l.orders;
        price = p;
      }
    ]
  ]

  unfoldable pub add_order : OrderBook Amount → PlaceMatchOrderParams Amount → OrderBook Amount
  add_order b p =
      if p.side is side_sell
      then record b { asks = add_to sell_price_list b.asks p }
      else record b { bids = add_to buy_price_list b.bids p }

  abbrev on_asks :
      OrderBook Amount → Ladder Amount × Bool × Amount → OrderBook Amount × Bool × Amount
  on_asks b (asks, removed, quantity) = (record b { asks = asks }, removed, quantity)

  abbrev on_bids :
      OrderBook Amount → Ladder Amount × Bool × Amount → OrderBook Amount × Bool × Amount
  on_bids b (bids, removed, quantity) = (record b { bids = bids }, removed, quantity)

  unfoldable pub remove_order :
      OrderBook Amount → String → OrderSide → Amount → OrderBook Amount × Bool × Amount
  remove_order b id side price =
      if side is side_sell
      then on_asks b (remove_from sell_price_list b.asks id price)
      else on_bids b (remove_from buy_price_list b.bids id price)

  unfoldable pub best_ask : OrderBook Amount → PriceLevel Amount
  best_ask b = best_of b.asks

  unfoldable pub best_bid : OrderBook Amount → PriceLevel Amount
  best_bid b = best_of b.bids

  abbrev pub empty_ladder : Ladder Amount
  empty_ladder = record { levels = []; prices = [] }

  -- heap.Init does nothing on an empty list.
  abbrev pub new_book : OrderBook Amount
  new_book = record { bids = empty_ladder; asks = empty_ladder }
