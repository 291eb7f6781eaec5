-- ===== src/Matching/Engine/Trading.antt =====
-- findMatches implements price-time priority: the loop on a valid book is a sequence of trades of
-- the specification.
use mathlib.Core.Path.{subst}
use mogtrade_engine.Base.{
  ℕ, zero, suc, ◌≡◌, refl, true, false, Option, some, inl, inr, String, List, [], ◌∷◌, arith,
  Option-cases, Bool-cases, List-cases, string_eq,
}
use mogtrade_engine.Base.Dict.{lookup}
use mogtrade_engine.Decimal.{Decimals}
use mogtrade_engine.Decimal.Laws.{min_le_left, min_le_right}
use mogtrade_engine.Matching.Heap.{peek}
use mogtrade_engine.Matching.Book.{OrderEntry, Level, OrderBook, sell_price_list, buy_price_list}
use mogtrade_engine.Matching.Book.Valid.{IsLevel, IsBook, queue}
use mogtrade_engine.Matching.Book.Best.{peek-level}
use mogtrade_engine.Matching.Engine.{
  Round, stop, purge, trade, match_heads, match_bid, match_crossing, match_once, proceed,
  match_loop, match_book, work,
}
use mogtrade_engine.Matching.Engine.Filling.{fill-IsLadder, fill-volume, fill-queue}
use mogtrade_engine.Matching.Engine.Settling.{match_book_total, Matches}
use mogtrade_engine.Matching.Engine.Trades.{
  IsUncrossed, no_ask, no_bid, apart, IsTrade, Trades, settled, traded,
}

module _ (d : Decimals) where
  open d use {
    Amount, zero_amount, add, sub, sub_add, min, min_lem, less_than, equal, is_zero, is_zero_iff,
    string,
  }

  -- What a round must be on a valid book.
  abbrev IsRound : String → OrderBook Amount → Round Amount → Type 0
  IsRound symbol b stop = IsUncrossed d b
  IsRound symbol b (purge c) = ⊥
  IsRound symbol b (trade ev c) = IsTrade d symbol b ev c

  min_positive :
      (a b : Amount)
      → less_than zero_amount a ≡ true
      → less_than zero_amount b ≡ true
      → less_than zero_amount (min a b) ≡ true
  min_positive a b p q = ground (arith, min_lem a b)

  positive-ne-zero : (a : Amount) → less_than zero_amount a ≡ true → is_zero a ≡ false
  positive-ne-zero a p = ground (arith, is_zero_iff a, d.lt_irrefl zero_amount)

  -- A valid level has a first order, of a positive quantity.
  first_order :
      (l : Level Amount)
      → IsLevel d l
      → (e : OrderEntry Amount) × (rest : List (OrderEntry Amount)) × (l.orders ≡ e ∷ rest)
        × (less_than zero_amount e.quantity ≡ true)
  first_order l level = elim (List-cases l.orders) [
    | inl empty ↦ absurd (ground (arith, level.waiting))
    | inr (e, rest, head) ↦ (e, rest, head, (rw head at level.positive).0)
  ]

  module _ (symbol : String) (now : ℕ) (b : OrderBook Amount) (v : IsBook d b)
      (ask_price bid_price : Amount) (first_ask : peek b.asks.prices ≡ some ask_price)
      (first_bid : peek b.bids.prices ≡ some bid_price)
      (crossing : less_than bid_price ask_price ≡ false) (al bl : Level Amount)
      (a e : OrderEntry Amount) (more es : List (OrderEntry Amount))
      (found_ask : lookup (string ask_price) b.asks.levels ≡ some al)
      (head_ask : al.orders ≡ a ∷ more)
      (found_bid : lookup (string bid_price) b.bids.levels ≡ some bl)
      (head_bid : bl.orders ≡ e ∷ es) (ask_positive : less_than zero_amount a.quantity ≡ true)
      (bid_positive : less_than zero_amount e.quantity ≡ true) where
    abbrev quantity : Amount
    quantity = min e.quantity a.quantity

    match_heads-IsRound :
        IsRound symbol b (match_heads d symbol now b ask_price al a more bid_price bl e es)
    unfolding match_heads queue
    match_heads-IsRound =
        let positive = min_positive e.quantity a.quantity bid_positive ask_positive in
        let ask_fits = min_le_right d e.quantity a.quantity in
        let bid_fits = min_le_left d e.quantity a.quantity in
        rw (positive-ne-zero quantity positive) (record {
          ask_price = ask_price;
          bid_price = bid_price;
          crossing = crossing;
          of_symbol = refl;
          positive = positive;
          ask_side = record {
            best = first_ask;
            first = a;
            behind = more;
            waiting = rw (found_ask, head_ask, queue);
            named = refl;
            fits = ask_fits;
            queues =
                fill-queue d (sell_price_list d) b.asks ask_price al a more quantity v.asks_valid
                  first_ask found_ask head_ask ask_fits;
            total =
                fill-volume d (sell_price_list d) b.asks ask_price al a more quantity v.asks_valid
                  first_ask found_ask head_ask ask_fits;
          };
          bid_side = record {
            best = first_bid;
            first = e;
            behind = es;
            waiting = rw (found_bid, head_bid, queue);
            named = refl;
            fits = bid_fits;
            queues =
                fill-queue d (buy_price_list d) b.bids bid_price bl e es quantity v.bids_valid
                  first_bid found_bid head_bid bid_fits;
            total =
                fill-volume d (buy_price_list d) b.bids bid_price bl e es quantity v.bids_valid
                  first_bid found_bid head_bid bid_fits;
          };
          used_up = ground (arith, min_lem e.quantity a.quantity);
          remaining = sub_add a.quantity quantity;
          valid = record {
            asks_valid =
                fill-IsLadder d (sell_price_list d) b.asks ask_price al a more quantity v.asks_valid
                  first_ask found_ask head_ask ask_fits;
            bids_valid =
                fill-IsLadder d (buy_price_list d) b.bids bid_price bl e es quantity v.bids_valid
                  first_bid found_bid head_bid bid_fits;
          };
        })

  match_crossing-IsRound :
      (symbol : String) (now : ℕ) (b : OrderBook Amount)
      → IsBook d b
      → (ask_price bid_price : Amount) → peek b.asks.prices ≡ some ask_price
      → peek b.bids.prices ≡ some bid_price
      → less_than bid_price ask_price ≡ false
      → IsRound symbol b (match_crossing d symbol now b ask_price bid_price)
  unfolding match_crossing match_bid
  match_crossing-IsRound symbol now b v ask_price bid_price first_ask first_bid crossing =
      let (al, found_ask, ask_level) =
        peek-level d (sell_price_list d) b.asks ask_price v.asks_valid first_ask in
      let (bl, found_bid, bid_level) =
        peek-level d (buy_price_list d) b.bids bid_price v.bids_valid first_bid in
      let (a, more, head_ask, ask_positive) = first_order al ask_level in
      let (e, es, head_bid, bid_positive) = first_order bl bid_level in
      rw (found_ask, head_ask, found_bid, head_bid, match_crossing, match_bid)
        (match_heads-IsRound symbol now b v ask_price bid_price first_ask first_bid crossing al bl a
          e more es found_ask head_ask found_bid head_bid ask_positive bid_positive)

  match_once-IsRound :
      (symbol : String) (now : ℕ) (b : OrderBook Amount)
      → IsBook d b
      → IsRound symbol b (match_once d symbol now b)
  unfolding match_once
  match_once-IsRound symbol now b v = elim (Option-cases (peek b.asks.prices)) [
    | inl nothing ↦ rw (nothing, match_once) (no_ask nothing)
    | inr (ask_price, first_ask) ↦ elim (Option-cases (peek b.bids.prices)) [
      | inl nothing ↦ rw (first_ask, nothing, match_once) (no_bid nothing)
      | inr (bid_price, first_bid) ↦ elim (Bool-cases (less_than bid_price ask_price)) [
        | inl far ↦
            rw (first_ask, first_bid, far, match_once)
              (apart ask_price bid_price first_ask first_bid far)
        | inr cross ↦
            rw (first_ask, first_bid, cross, match_once)
              (match_crossing-IsRound symbol now b v ask_price bid_price first_ask first_bid cross)
      ]
    ]
  ]

  proceed-Trades :
      (symbol : String) (n : ℕ) (b : OrderBook Amount) (round : Round Amount)
      (next : ℕ → OrderBook Amount → Option (Matches d)) (r : Matches d)
      → IsBook d b
      → ((m : ℕ) (c : OrderBook Amount) (q : Matches d)
          → IsBook d c
          → next m c ≡ some q
          → Trades d symbol c q.0 q.1)
      → IsRound symbol b round
      → proceed d next n b round ≡ some r
      → Trades d symbol b r.0 r.1
  unfolding proceed
  proceed-Trades symbol n b stop next r v ih k h =
      let same : ([], b) ≡ r = ground arith in
      subst (λ q. Trades d symbol b q.0 q.1) same (settled v k)
  proceed-Trades symbol n b (purge c) next r v ih k h = absurd k
  proceed-Trades symbol n b (trade ev c) next r v ih k h = elim (Option-cases (next (suc n) c)) [
    | inl none_left ↦ absurd (ground arith)
    | inr (q, done) ↦
        let same : (ev ∷ q.0, q.1) ≡ r = ground arith in
        subst (λ q'. Trades d symbol b q'.0 q'.1) same (traded k (ih (suc n) c q k.valid done))
  ]

  match_loop-Trades :
      (fuel : ℕ) (symbol : String) (clock : ℕ → ℕ) (n : ℕ) (b : OrderBook Amount) (r : Matches d)
      → IsBook d b
      → match_loop d fuel symbol clock n b ≡ some r
      → Trades d symbol b r.0 r.1
  unfolding match_loop
  match_loop-Trades zero symbol clock n b r v h = absurd (ground arith)
  match_loop-Trades (suc fuel) symbol clock n b r v h =
      proceed-Trades symbol n b (match_once d symbol (clock n) b) (match_loop d fuel symbol clock) r
        v (match_loop-Trades fuel symbol clock) (match_once-IsRound symbol (clock n) b v) h

  -- On a valid book findMatches returns, and what it publishes is a sequence of trades in
  -- price-time priority that leaves a valid book in which no prices cross.
  pub match_book-Trades :
      (symbol : String) (clock : ℕ → ℕ) (b : OrderBook Amount)
      → IsBook d b
      → (r : Matches d) × (match_book d symbol clock b ≡ some r) × Trades d symbol b r.0 r.1
  unfolding match_book
  match_book-Trades symbol clock b v =
      let (r, done) = match_book_total d symbol clock b in
      (r, done, match_loop-Trades (suc (work d b)) symbol clock 0 b r v done)
