-- ===== src/Matching/Engine/Calls.antt =====
-- services/matching/engine.go: PlaceMatchOrder, CancelMatchOrder and findMatches on the engine's
-- books. The lookup of a book and the operation on it are one step: books are never dropped or
-- replaced, so what another call does in between is as if it came before.
use mathlib.Core.Option
use mogtrade_engine.Base.{ℕ, Bool, false, Option, none, some, String, List, [], string_eq}
use mogtrade_engine.Base.Dict.{Dict, lookup, insert}
use mogtrade_engine.Decimal.{Decimals}
use mogtrade_engine.Database.Enums.{OrderSide}
use mogtrade_engine.Matching.Book.{
  OrderBook, PlaceMatchOrderParams, add_order, remove_order, new_book,
}
use mogtrade_engine.Matching.Engine.{OrderMatchedEventArgs, match_book}

pub record Engine (A : Type 0) : Type 0 where
  pub books : Dict String (OrderBook A)

module _ (d : Decimals) where
  open d use {Amount, zero_amount}

  -- The book is made on the symbol's first order; books are never dropped. The goroutine that the
  -- source starts here is a step of its own (Exchange).
  unfoldable pub place_match_order : Engine Amount → PlaceMatchOrderParams Amount → Engine Amount
  place_match_order e p =
      let book : OrderBook Amount = elim (lookup p.symbol e.books) [
        | none ↦ new_book d
        | some b ↦ b
      ] in
      record { books = insert p.symbol (add_order d book p) e.books }

  abbrev in_book :
      Engine Amount → String → OrderBook Amount × Bool × Amount → Engine Amount × Bool × Amount
  in_book e symbol (book, removed, quantity) =
      (record { books = insert symbol book e.books }, removed, quantity)

  unfoldable pub cancel_match_order :
      Engine Amount → String → String → OrderSide → Amount → Engine Amount × Bool × Amount
  cancel_match_order e id symbol side price = elim (lookup symbol e.books) [
    | none ↦ (e, false, zero_amount)
    | some b ↦ in_book e symbol (remove_order d b id side price)
  ]

  unfoldable pub find_matches :
      String
      → (ℕ → ℕ)
      → Engine Amount
      → Option (List (OrderMatchedEventArgs Amount) × Engine Amount)
  find_matches symbol clock e = elim (lookup symbol e.books) [
    | none ↦ some ([], e)
    | some b ↦
        Option.map (λ r. (r.0, record { books = insert symbol r.1 e.books }))
          (match_book d symbol clock b)
  ]
