-- ===== src/Matching/Tests.antt =====
-- Whole-number runs of the order book and of the engine, and the theorems at work on them.
use mogtrade_engine.Base.{
  String, length, ℕ, ◌≡◌, refl, some, [], arith, string_eq, Bool, ◌is◌, if◌then◌else◌, nth,
}
use mogtrade_engine.Base.Int.{ℤ, pos}
use mogtrade_engine.Base.Dict.{lookup, insert}
use mogtrade_engine.Database.Enums.{side_sell, side_buy}
use mogtrade_engine.Decimal.Whole.{whole}
use mogtrade_engine.Matching.Book.{
  Ladder, OrderBook, add_to, PlaceMatchOrderParams, add_order, remove_order, new_book,
}
use mogtrade_engine.Matching.Book.Valid.{IsBook, queue}
use mogtrade_engine.Matching.Book.Add.{new_book-IsBook, add_order-IsBook}
use mogtrade_engine.Matching.Book.Remove.{remove_order-IsBook}
use mogtrade_engine.Matching.Book.Queues.{Removal, joined, add_order-queue, remove_order-queue}
use mogtrade_engine.Matching.Apart.{IsApart}
use mogtrade_engine.Matching.Engine.{match_book, match_loop, match_once, proceed}
use mogtrade_engine.Matching.Engine.Calls.{find_matches, place_match_order}
use mogtrade_engine.Matching.Heap.{peek, push, up, up_loop}
use mogtrade_engine.Matching.Engine.Settling.{Matches, Returns, match_book_total}
use mogtrade_engine.Matching.Engine.Trades.{Trades}
use mogtrade_engine.Matching.Engine.Trading.{match_book-Trades}
use mogtrade_engine.Matching.Engine.Conserved.{Conserved, match_book-conserves}
use mogtrade_engine.Matching.Exchange.{
  System, new_system, Drains, Reach, here, after, place, match_pending, placed,
}
use mogtrade_engine.Matching.Exchange.Invariant.{IsKept, Reach-IsKept, quiet-IsApart}
use mogtrade_engine.Matching.Exchange.Settlement.{ApartIn, settles}

abbrev ask_order : PlaceMatchOrderParams ℤ
ask_order = record {
  order_id = "a";
  symbol = "TEA";
  side = side_sell;
  quantity = pos 5;
  price = pos 10;
}

abbrev bid_order : PlaceMatchOrderParams ℤ
bid_order = record {
  order_id = "b";
  symbol = "TEA";
  side = side_buy;
  quantity = pos 3;
  price = pos 11;
}

abbrev ask_book : OrderBook ℤ
ask_book = add_order whole (new_book whole) ask_order

abbrev crossed_book : OrderBook ℤ
crossed_book = add_order whole ask_book bid_order

ask_book-IsBook : IsBook whole ask_book
ask_book-IsBook = add_order-IsBook whole (new_book whole) ask_order refl (new_book-IsBook whole)

crossed_book-IsBook : IsBook whole crossed_book
crossed_book-IsBook = add_order-IsBook whole ask_book bid_order refl ask_book-IsBook

abbrev clock : ℕ → ℕ
clock n = n

match_book-Trades_example :
    (r : Matches whole) × (match_book whole "TEA" clock crossed_book ≡ some r)
    × Trades whole "TEA" crossed_book r.0 r.1
match_book-Trades_example = match_book-Trades whole "TEA" clock crossed_book crossed_book-IsBook

match_book-conserves_example :
    (r : Matches whole) × (match_book whole "TEA" clock crossed_book ≡ some r)
    × Conserved whole crossed_book r.0 r.1
match_book-conserves_example =
    match_book-conserves whole "TEA" clock crossed_book crossed_book-IsBook

match_book_total_example : Returns whole (match_book whole "TEA" clock crossed_book)
match_book_total_example = match_book_total whole "TEA" clock crossed_book

add_order-IsBook_example : IsBook whole (add_order whole ask_book bid_order)
add_order-IsBook_example = add_order-IsBook whole ask_book bid_order refl ask_book-IsBook

remove_order-IsBook_example : IsBook whole (remove_order whole crossed_book "b" side_buy (pos 11)).0
remove_order-IsBook_example =
    remove_order-IsBook whole crossed_book "b" side_buy (pos 11) crossed_book-IsBook

add_order-queue_example :
    (queue whole (add_order whole ask_book bid_order).asks (pos 10) ≡ (
      if bid_order.side is side_sell
      then joined whole ask_book.asks bid_order (pos 10)
      else queue whole ask_book.asks (pos 10)))
    × (queue whole (add_order whole ask_book bid_order).bids (pos 10) ≡ (
        if bid_order.side is side_sell
        then queue whole ask_book.bids (pos 10)
        else joined whole ask_book.bids bid_order (pos 10)))
add_order-queue_example = add_order-queue whole ask_book bid_order (pos 10)

remove_order-queue_example :
    (s : Ladder ℤ) × (r : Bool × ℤ) × Removal whole
      (if side_buy is side_sell then crossed_book.asks else crossed_book.bids)
      "b"
      (pos 11)
      (s, r.0, r.1)
    × (remove_order whole crossed_book "b" side_buy (pos 11) ≡ (
      (if side_buy is side_sell
          then record crossed_book { asks = s }
          else record crossed_book { bids = s }),
      r.0,
      r.1,
    ))
remove_order-queue_example =
    remove_order-queue whole crossed_book "b" side_buy (pos 11) crossed_book-IsBook

ask_book-IsApart : IsApart whole ask_book
unfolding IsApart add_order lookup
ask_book-IsApart ask_price bid_price al bl ask bid = absurd (ground arith)

abbrev asked : System ℤ
asked = placed whole new_system ask_order

abbrev asked-Reach : Reach whole new_system asked
asked-Reach = after here (place ask_order)

asked-book : lookup "TEA" asked.engine.books ≡ some ask_book
unfolding place_match_order insert lookup
asked-book = refl

Reach-IsKept_example : IsKept whole "TEA" ask_book asked.pending
Reach-IsKept_example = Reach-IsKept whole asked "TEA" ask_book asked-Reach (tt, refl) asked-book

abbrev settled_system : System ℤ
settled_system = record { engine = asked.engine; pending = []; published = [] }

-- One side is empty, so findMatches stops at once.
nothing_matches : find_matches whole "TEA" clock asked.engine ≡ some ([], asked.engine)
unfolding find_matches place_match_order insert lookup match_book match_loop proceed match_once
    add_order add_to peek nth push up up_loop
nothing_matches = refl

abbrev settled_system-Reach : Reach whole new_system settled_system
settled_system-Reach =
    after asked-Reach (match_pending [] [] "TEA" clock [] asked.engine refl nothing_matches)

quiet-IsApart_example : IsApart whole ask_book
quiet-IsApart_example =
    quiet-IsApart whole settled_system "TEA" ask_book settled_system-Reach ((tt, refl), tt) refl
      asked-book

settles_example :
    (t : System ℤ) × Drains whole asked (length asked.pending) t
    × (t.pending ≡ [])
    × ((symbol : String) → ApartIn whole (lookup symbol t.engine.books))
settles_example = settles whole asked asked-Reach (tt, refl)
