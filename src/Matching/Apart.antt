-- ===== src/Matching/Apart.antt =====
-- A book in which every bid is below every ask: what findMatches establishes and what
-- RemoveOrder keeps.
use mathlib.Core.Logic.{◌≢◌}
use mogtrade_engine.Base.{
  ◌≡◌, ◌∙◌, sym, true, false, none, some, inl, inr, String, List, arith, length, Option-cases,
  Bool-cases, string_eq, ◌is◌, ◌==◌,
}
use mogtrade_engine.Base.Dict.{lookup, lookup-insert, lookup-erase_ne, IsDistinct}
use mogtrade_engine.Database.Enums.{OrderSide, side_sell}
use mogtrade_engine.Decimal.{Decimals}
use mogtrade_engine.Matching.Heap.{HeapOrder}
use mogtrade_engine.Matching.Book.{
  Level, Ladder, OrderBook, sell_price_list, buy_price_list, take_order, drop_order, remove_from,
  remove_order,
}
use mogtrade_engine.Matching.Book.Valid.{IsBook}
use mogtrade_engine.Matching.Book.Best.{peek-first, no_level}
use mogtrade_engine.Matching.Engine.{OrderMatchedEventArgs}
use mogtrade_engine.Matching.Engine.Trades.{
  IsUncrossed, no_ask, no_bid, apart, Trades, settled, traded,
}

module _ (d : Decimals) where
  open d use {
    Amount, zero_amount, less_than, greater_than, greater_than_lem, lt_trans, lt_connected, string,
  }

  unfoldable pub IsApart : OrderBook Amount → Type 0
  IsApart b =
      (ask_price bid_price : Amount) (al bl : Level Amount)
      → lookup (string ask_price) b.asks.levels ≡ some al
      → lookup (string bid_price) b.bids.levels ≡ some bl
      → less_than bid_price ask_price ≡ true

  between :
      (bid best_bid best_ask ask : Amount)
      → less_than best_bid bid ≡ false
      → less_than best_bid best_ask ≡ true
      → less_than ask best_ask ≡ false
      → less_than bid ask ≡ true
  between bid best_bid best_ask ask below far above = ground (
    arith,
    lt_connected best_bid bid,
    lt_connected ask best_ask,
    lt_trans bid best_bid best_ask,
    lt_trans bid best_ask ask,
  )

  -- In a valid book whose best prices do not cross, no prices do.
  pub IsUncrossed-IsApart : (b : OrderBook Amount) → IsBook d b → IsUncrossed d b → IsApart b
  unfolding IsApart
  IsUncrossed-IsApart b v (no_ask nothing) = λ p q al bl ask bid.
      absurd (ground (arith, no_level d (sell_price_list d) b.asks p v.asks_valid nothing))
  IsUncrossed-IsApart b v (no_bid nothing) = λ p q al bl ask bid.
      absurd (ground (arith, no_level d (buy_price_list d) b.bids q v.bids_valid nothing))
  IsUncrossed-IsApart b v (apart best_ask best_bid first_ask first_bid far) = λ p q al bl ask bid.
      let above =
        peek-first d (sell_price_list d) b.asks best_ask p al v.asks_valid first_ask ask in
      let below = peek-first d (buy_price_list d) b.bids best_bid q bl v.bids_valid first_bid bid in
      between q best_bid best_ask p (sym (greater_than_lem q best_bid) ∙ below) far above

  -- A side after RemoveOrder has no level at a price where it had none.
  module _ (o : HeapOrder Amount) (s : Ladder Amount) (id : String) (price p : Amount) where
    apart_keys :
        (l : Level Amount)
        → lookup (string price) s.levels ≡ some l
        → lookup (string p) s.levels ≡ none
        → string p ≢ string price
    apart_keys l found missing same = ground (arith, rw same at missing)

    drop_order-none :
        (l k : Level Amount)
        → IsDistinct s.levels
        → lookup (string price) s.levels ≡ some l
        → lookup (string p) s.levels ≡ none
        → lookup (string p) (drop_order d o s price k).levels ≡ none
    unfolding drop_order
    drop_order-none l k distinct found missing = elim (Bool-cases (length k.orders == 0)) [
      | inl empty ↦
          rw
            (
              empty,
              lookup-erase_ne (string p) (string price) s.levels (apart_keys l found missing),
              drop_order,
            )
            missing
      | inr some_left ↦
          rw (some_left, lookup-insert (string price) (string p) k s.levels, drop_order)
            (ground
              (arith, apart_keys l found missing, string_eq.beq_iff (string price) (string p)))
    ]

    remove_from-none :
        IsDistinct s.levels
        → lookup (string p) s.levels ≡ none
        → lookup (string p) (remove_from d o s id price).0.levels ≡ none
    unfolding remove_from
    remove_from-none distinct missing = elim (Option-cases (lookup (string price) s.levels)) [
      | inl no_level ↦ rw (no_level, remove_from) missing
      | inr (l, found) ↦ elim (Option-cases (take_order d id l.orders)) [
        | inl no_order ↦ rw (found, no_order, remove_from) missing
        | inr (r, taken) ↦
            rw (found, taken, remove_from) (drop_order-none l _ distinct found missing)
      ]
    ]

    remove_from-had :
        (l : Level Amount)
        → IsDistinct s.levels
        → lookup (string p) (remove_from d o s id price).0.levels ≡ some l
        → (k : Level Amount) × (lookup (string p) s.levels ≡ some k)
    remove_from-had l distinct found = elim (Option-cases (lookup (string p) s.levels)) [
      | inl missing ↦ absurd (ground (arith, remove_from-none distinct missing))
      | inr old ↦ old
    ]

  -- On a valid book in which every bid is below every ask, RemoveOrder keeps them so.
  pub remove_order-IsApart :
      (b : OrderBook Amount) (id : String) (side : OrderSide) (price : Amount)
      → IsBook d b
      → IsApart b
      → IsApart (remove_order d b id side price).0
  unfolding IsApart remove_order
  remove_order-IsApart b id side price v h = elim (Bool-cases (side is side_sell)) [
    | inl sell ↦ rw sell (λ p q al bl ask bid.
        let (k, had) =
          remove_from-had (sell_price_list d) b.asks id price p al v.asks_valid.distinct ask in
        h p q k bl had bid)
    | inr buy ↦ rw buy (λ p q al bl ask bid.
        let (k, had) =
          remove_from-had (buy_price_list d) b.bids id price q bl v.bids_valid.distinct bid in
        h p q al k ask had)
  ]

  -- Trades end with a valid book in which every bid is below every ask.
  pub Trades-IsBook :
      (symbol : String) (b : OrderBook Amount) (evs : List (OrderMatchedEventArgs Amount))
      (c : OrderBook Amount)
      → Trades d symbol b evs c
      → IsBook d c
  Trades-IsBook symbol b evs c (settled v k) = v
  Trades-IsBook symbol b evs c (traded k rest) = Trades-IsBook symbol _ _ c rest

  pub Trades-IsApart :
      (symbol : String) (b : OrderBook Amount) (evs : List (OrderMatchedEventArgs Amount))
      (c : OrderBook Amount)
      → Trades d symbol b evs c
      → IsApart c
  Trades-IsApart symbol b evs c (settled v k) = IsUncrossed-IsApart c v k
  Trades-IsApart symbol b evs c (traded k rest) = Trades-IsApart symbol _ _ c rest
