-- ===== src/Matching/Engine/Settling.antt =====
-- findMatches ends on every book: a round that goes on takes out an order or a listed price.
use mogtrade_engine.Base.{
  ℕ, zero, suc, ◌+◌, ◌≤◌, ◌<◌, ◌≡◌, ◌⊎◌, refl, true, Option, some, inl, inr, String, List, [], ◌∷◌,
  arith, length, Option-cases, Bool-cases, List-cases, string_eq, length-perm, if◌then◌else◌,
}
use mogtrade_engine.Base.Dict.{Dict, lookup, insert, erase}
use mogtrade_engine.Decimal.{Decimals}
use mogtrade_engine.Decimal.Laws.{sub_self}
use mogtrade_engine.Matching.Heap
use mogtrade_engine.Matching.Heap.{HeapOrder, peek}
use mogtrade_engine.Matching.Heap.Removal.{pop-perm}
use mogtrade_engine.Matching.Book.{
  OrderEntry, Level, Ladder, OrderBook, sell_price_list, buy_price_list,
}
use mogtrade_engine.Matching.Engine.{
  OrderMatchedEventArgs, Round, stop, purge, trade, drop_price, fill_level, fill, match_heads,
  match_bid, match_crossing, match_once, proceed, match_loop, waiting, ladder_work, work,
  match_book,
}

module _ (d : Decimals) where
  open d use {Amount, zero_amount, sub, min, min_lem, less_than, is_zero, is_zero_iff, string}

  waiting-erase :
      (k : String) (s : Dict String (Level Amount)) → waiting d (erase k s) ≤ waiting d s
  unfolding waiting erase
  waiting-erase k [] = omega arith
  waiting-erase k ((j, l) ∷ s) = ground (arith, waiting-erase k s)

  waiting-erase_old :
      (k : String) (l : Level Amount) (s : Dict String (Level Amount))
      → lookup k s ≡ some l
      → waiting d (erase k s) + length l.orders ≡ waiting d s
  unfolding waiting erase lookup
  waiting-erase_old k l [] h = absurd (ground arith)
  waiting-erase_old k l ((j, m) ∷ s) h = ground (arith, waiting-erase_old k l s)

  waiting-insert :
      (k : String) (l new : Level Amount) (s : Dict String (Level Amount))
      → lookup k s ≡ some l
      → waiting d (insert k new s) + length l.orders ≡ waiting d s + length new.orders
  unfolding waiting insert lookup
  waiting-insert k l new [] h = absurd (ground arith)
  waiting-insert k l new ((j, m) ∷ s) h = ground (arith, waiting-insert k l new s)

  module _ (o : HeapOrder Amount) where
    length-pop :
        (ps : List Amount) (price : Amount)
        → peek ps ≡ some price
        → suc (length (Heap.pop o ps)) ≡ length ps
    unfolding peek
    length-pop [] price first = absurd (ground arith)
    length-pop (p ∷ ps) price first = length-perm (pop-perm o (length ps) (p ∷ ps) refl)

    drop_price-work :
        (s : Ladder Amount) (price : Amount)
        → peek s.prices ≡ some price
        → ladder_work d (drop_price d o s price) < ladder_work d s
    unfolding drop_price
    drop_price-work s price first =
        omega (arith, waiting-erase (string price) s.levels, length-pop s.prices price first)

    -- Filling an order leaves no more to do on its side, and less when nothing of it is left.
    fill-work :
        (s : Ladder Amount) (price : Amount) (l : Level Amount) (e : OrderEntry Amount)
        (rest : List (OrderEntry Amount)) (quantity : Amount)
        → peek s.prices ≡ some price
        → lookup (string price) s.levels ≡ some l
        → l.orders ≡ e ∷ rest
        → (ladder_work d (fill d o s price l e rest quantity)
              + (if is_zero (sub e.quantity quantity) then 1 else 0)
            ≤ ladder_work d s)
    unfolding fill fill_level
    fill-work s price l e rest quantity first found head = ground (
      arith,
      drop_price-work s price first,
      waiting-insert (string price) l (fill_level d l e rest quantity) s.levels found,
    )

  -- A round that goes on leaves less to do.
  abbrev Lessens : OrderBook Amount → Round Amount → Type 0
  Lessens b stop = Unit
  Lessens b (purge c) = work d c < work d b
  Lessens b (trade ev c) = work d c < work d b

  -- The smaller quantity is used up.
  min-used :
      (a b : Amount) → (is_zero (sub a (min a b)) ≡ true) ⊎ (is_zero (sub b (min a b)) ≡ true)
  min-used a b = elim (Bool-cases (less_than b a)) [
    | inl lt ↦ inr (rw (min_lem a b, lt) ((is_zero_iff _).1 (sub_self d b)))
    | inr ge ↦ inl (rw (min_lem a b, ge) ((is_zero_iff _).1 (sub_self d a)))
  ]

  module _ (symbol : String) (now : ℕ) (b : OrderBook Amount) (ask_price bid_price : Amount)
      (first_ask : peek b.asks.prices ≡ some ask_price)
      (first_bid : peek b.bids.prices ≡ some bid_price) where
    match_heads-Lessens :
        (al bl : Level Amount) (a e : OrderEntry Amount) (more es : List (OrderEntry Amount))
        → lookup (string ask_price) b.asks.levels ≡ some al
        → al.orders ≡ a ∷ more
        → lookup (string bid_price) b.bids.levels ≡ some bl
        → bl.orders ≡ e ∷ es
        → Lessens b (match_heads d symbol now b ask_price al a more bid_price bl e es)
    unfolding match_heads
    match_heads-Lessens al bl a e more es found_ask head_ask found_bid head_bid =
        let q = min e.quantity a.quantity in
        elim (Bool-cases (is_zero q)) [
          | inl nothing ↦ rw nothing tt
          | inr something ↦ rw something (
              ground (
                arith,
                min-used e.quantity a.quantity,
                fill-work (sell_price_list d) b.asks ask_price al a more q first_ask found_ask
                    head_ask,
                fill-work (buy_price_list d) b.bids bid_price bl e es q first_bid found_bid
                    head_bid,
              ))
        ]

    match_bid-Lessens :
        (al : Level Amount) (a : OrderEntry Amount) (more : List (OrderEntry Amount))
        → lookup (string ask_price) b.asks.levels ≡ some al
        → al.orders ≡ a ∷ more
        → Lessens b (match_bid d symbol now b ask_price al a more bid_price)
    unfolding match_bid
    match_bid-Lessens al a more found head =
        elim (Option-cases (lookup (string bid_price) b.bids.levels)) [
          | inl missing ↦
              rw (missing, match_bid)
                (omega (arith, drop_price-work (buy_price_list d) b.bids bid_price first_bid))
          | inr (bl, found_bid) ↦ elim (List-cases bl.orders) [
            | inl empty ↦
                rw (found_bid, empty, match_bid)
                  (omega (arith, drop_price-work (buy_price_list d) b.bids bid_price first_bid))
            | inr (e, es, head_bid) ↦
                rw (found_bid, head_bid, match_bid)
                  (match_heads-Lessens al bl a e more es found head found_bid head_bid)
          ]
        ]

    match_crossing-Lessens : Lessens b (match_crossing d symbol now b ask_price bid_price)
    unfolding match_crossing
    match_crossing-Lessens = elim (Option-cases (lookup (string ask_price) b.asks.levels)) [
      | inl missing ↦
          rw (missing, match_crossing)
            (omega (arith, drop_price-work (sell_price_list d) b.asks ask_price first_ask))
      | inr (al, found) ↦ elim (List-cases al.orders) [
        | inl empty ↦
            rw (found, empty, match_crossing)
              (omega (arith, drop_price-work (sell_price_list d) b.asks ask_price first_ask))
        | inr (a, more, head) ↦
            rw (found, head, match_crossing) (match_bid-Lessens al a more found head)
      ]
    ]

  match_once-Lessens :
      (symbol : String) (now : ℕ) (b : OrderBook Amount) → Lessens b (match_once d symbol now b)
  unfolding match_once
  match_once-Lessens symbol now b = elim (Option-cases (peek b.asks.prices)) [
    | inl no_ask ↦ rw (no_ask, match_once) tt
    | inr (ask_price, first_ask) ↦ elim (Option-cases (peek b.bids.prices)) [
      | inl no_bid ↦ rw (first_ask, no_bid, match_once) tt
      | inr (bid_price, first_bid) ↦ elim (Bool-cases (less_than bid_price ask_price)) [
        | inl apart ↦ rw (first_ask, first_bid, apart, match_once) tt
        | inr cross ↦
            rw (first_ask, first_bid, cross, match_once)
              (match_crossing-Lessens symbol now b ask_price bid_price first_ask first_bid)
      ]
    ]
  ]

  abbrev pub Matches : Type 0
  Matches = List (OrderMatchedEventArgs Amount) × OrderBook Amount

  abbrev pub Returns : Option Matches → Type 0
  Returns o = (r : Matches) × (o ≡ some r)

  proceed-Returns :
      (fuel n : ℕ) (b : OrderBook Amount) (r : Round Amount)
      (next : ℕ → OrderBook Amount → Option Matches)
      → work d b < suc fuel
      → ((m : ℕ) (c : OrderBook Amount) → work d c < fuel → Returns (next m c))
      → Lessens b r
      → Returns (proceed d next n b r)
  unfolding proceed
  proceed-Returns fuel n b stop next h ih l = (([], b), refl)
  proceed-Returns fuel n b (purge c) next h ih l = ih n c (omega arith)
  proceed-Returns fuel n b (trade ev c) next h ih l =
      let (r, done) = ih (suc n) c (omega arith) in ((ev ∷ r.0, r.1), rw done)

  match_loop-Returns :
      (fuel : ℕ) (symbol : String) (clock : ℕ → ℕ) (n : ℕ) (b : OrderBook Amount)
      → work d b < fuel
      → Returns (match_loop d fuel symbol clock n b)
  unfolding match_loop
  match_loop-Returns zero symbol clock n b h = absurd (omega arith)
  match_loop-Returns (suc fuel) symbol clock n b h =
      proceed-Returns fuel n b (match_once d symbol (clock n) b) (match_loop d fuel symbol clock) h
        (match_loop-Returns fuel symbol clock) (match_once-Lessens symbol (clock n) b)

  -- The loop of findMatches ends on every book, valid or not.
  pub match_book_total :
      (symbol : String) (clock : ℕ → ℕ) (b : OrderBook Amount)
      → Returns (match_book d symbol clock b)
  unfolding match_book
  match_book_total symbol clock b =
      match_loop-Returns (suc (work d b)) symbol clock 0 b (omega arith)
