-- ===== src/Matching/Exchange/Settlement.antt =====
-- The started matches can always run: findMatches returns on every engine.
use mogtrade_engine.Base.{
  Option, none, ℕ, length, ◌≡◌, refl, some, inl, inr, String, List, [], ◌∷◌, ◌++◌, Option-cases,
  string_eq,
}
use mogtrade_engine.Base.Dict.{lookup}
use mogtrade_engine.Decimal.{Decimals}
use mogtrade_engine.Matching.Engine.{OrderMatchedEventArgs}
use mogtrade_engine.Matching.Engine.Calls.{Engine, find_matches}
use mogtrade_engine.Matching.Engine.Settling.{match_book_total}
use mogtrade_engine.Matching.Exchange.{
  System, new_system, match_pending, Reach, after, AllPositive, Drains, drained, match_first,
}
use mogtrade_engine.Matching.Exchange.Invariant.{quiet-IsApart}
use mogtrade_engine.Matching.Apart.{IsApart}
use mogtrade_engine.Matching.Book.{OrderBook}

module _ (d : Decimals) where
  open d use {Amount}

  pub find_matches_total :
      (symbol : String) (clock : ℕ → ℕ) (e : Engine Amount)
      → (r : List (OrderMatchedEventArgs Amount) × Engine Amount) × (find_matches d symbol clock e
          ≡ some r)
  unfolding find_matches
  find_matches_total symbol clock e = elim (Option-cases (lookup symbol e.books)) [
    | inl unknown ↦ rw (unknown, find_matches) (_, refl)
    | inr (b, found) ↦
        let (r, done) = match_book_total d symbol clock b in
        rw (found, done, find_matches) (_, refl)
  ]

  settle_pending :
      (pending : List String) (s : System Amount)
      → s.pending ≡ pending
      → (t : System Amount) × Drains d s (length pending) t × (t.pending ≡ [])
  settle_pending [] s quiet = (s, drained, quiet)
  settle_pending (symbol ∷ later) s waiting =
      let ((evs, e), done) = find_matches_total symbol (λ n. n) s.engine in
      let (t, run, quiet) =
        settle_pending later
          (record { engine = e; pending = later; published = s.published ++ evs }) refl in
      (t, match_first symbol later (λ n. n) evs e waiting done run, quiet)

  -- Matches are steps that place nothing.
  Drains-Reach :
      {s t : System Amount} {n : ℕ} (r : Reach d new_system s)
      → AllPositive d r
      → Drains d s n t
      → (q : Reach d new_system t) × AllPositive d q
  Drains-Reach r positive drained = (r, positive)
  Drains-Reach r positive (match_first symbol later clock evs e waiting done rest) =
      Drains-Reach (after r (match_pending [] later symbol clock evs e waiting done)) (positive, tt)
        rest

  -- No bid of the book reaches an ask, if there is a book.
  abbrev pub ApartIn : Option (OrderBook Amount) → Type 0
  ApartIn none = Unit
  ApartIn (some b) = IsApart d b

  quiet-ApartIn :
      (t : System Amount) (q : Reach d new_system t)
      → AllPositive d q
      → t.pending ≡ []
      → (symbol : String) → ApartIn (lookup symbol t.engine.books)
  quiet-ApartIn t q positive quiet symbol = elim (Option-cases (lookup symbol t.engine.books)) [
    | inl unknown ↦ rw unknown tt
    | inr (b, found) ↦ rw found (quiet-IsApart d t symbol b q positive quiet found)
  ]

  -- From every system that calls with positive quantities lead to, the started matches alone, one
  -- run for each, lead to a system in which none is left to run and no bid of any book reaches an
  -- ask.
  pub settles :
      (s : System Amount) (r : Reach d new_system s)
      → AllPositive d r
      → (t : System Amount) × Drains d s (length s.pending) t
        × (t.pending ≡ [])
        × ((symbol : String) → ApartIn (lookup symbol t.engine.books))
  settles s r positive =
      let (t, run, quiet) = settle_pending s.pending s refl in
      let (q, still) = Drains-Reach r positive run in
      (t, run, quiet, λ symbol. quiet-ApartIn t q still quiet symbol)
