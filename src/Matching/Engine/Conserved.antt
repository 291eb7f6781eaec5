-- ===== src/Matching/Engine/Conserved.antt =====
-- What findMatches publishes and what the book loses are the same volume, on both sides.
use mogtrade_engine.Base.{ℕ, ◌≡◌, ◌∙◌, sym, ap, some, String, List, [], ◌∷◌, string_eq}
use mogtrade_engine.Decimal.{Decimals}
use mogtrade_engine.Matching.Book.{OrderBook}
use mogtrade_engine.Matching.Book.Valid.{IsBook}
use mogtrade_engine.Matching.Engine.{OrderMatchedEventArgs, match_book}
use mogtrade_engine.Matching.Engine.Volume.{volume}
use mogtrade_engine.Matching.Engine.Settling.{Matches}
use mogtrade_engine.Matching.Engine.Trades.{Trades, settled, traded}
use mogtrade_engine.Matching.Engine.Trading.{match_book-Trades}

module _ (d : Decimals) where
  open d use {Amount, zero_amount, add, add_comm, add_assoc, add_zero}

  -- The quantities of the events, added up.
  unfoldable pub matched : List (OrderMatchedEventArgs Amount) → Amount
  matched [] = zero_amount
  matched (ev ∷ evs) = add ev.match_quantity (matched evs)

  regroup :
      (left traded_now traded_later middle whole : Amount)
      → add left traded_later ≡ middle
      → add middle traded_now ≡ whole
      → add left (add traded_now traded_later) ≡ whole
  regroup left traded_now traded_later middle whole later now =
      ap (add left) (add_comm traded_now traded_later)
      ∙ sym (add_assoc left traded_later traded_now)
      ∙ ap (λ m. add m traded_now) later
      ∙ now

  abbrev pub Conserved :
      OrderBook Amount → List (OrderMatchedEventArgs Amount) → OrderBook Amount → Type 0
  Conserved b evs c =
      (add (volume d c.asks.levels) (matched evs) ≡ volume d b.asks.levels)
      × (add (volume d c.bids.levels) (matched evs) ≡ volume d b.bids.levels)

  Trades-Conserved :
      (symbol : String) (b : OrderBook Amount) (evs : List (OrderMatchedEventArgs Amount))
      (c : OrderBook Amount)
      → Trades d symbol b evs c
      → Conserved b evs c
  unfolding matched
  Trades-Conserved symbol b evs c (settled v k) = (add_zero _, add_zero _)
  Trades-Conserved symbol b (ev ∷ evs) c (traded k rest) =
      let (asks, bids) = Trades-Conserved symbol _ evs c rest in
      (regroup _ _ _ _ _ asks k.ask_side.total, regroup _ _ _ _ _ bids k.bid_side.total)

  -- On a valid book findMatches returns, and each side of the book loses exactly the quantities of
  -- the published events, added up.
  pub match_book-conserves :
      (symbol : String) (clock : ℕ → ℕ) (b : OrderBook Amount)
      → IsBook d b
      → (r : Matches d) × (match_book d symbol clock b ≡ some r) × Conserved b r.0 r.1
  match_book-conserves symbol clock b v =
      let (r, done, trades) = match_book-Trades d symbol clock b v in
      (r, done, Trades-Conserved symbol b r.0 r.1 trades)
