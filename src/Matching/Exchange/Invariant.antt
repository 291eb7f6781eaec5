-- ===== src/Matching/Exchange/Invariant.antt =====
-- Every interleaving of the engine's calls keeps the books valid, and a book whose best prices
-- cross has a findMatches that is still to run.
use mathlib.Core.Logic.Or
use mathlib.Core.List.Perm
use mathlib.Core.List.{perm_middle, mem-cons, mem-cons_self, mem-cons_of_mem, Mem-prop, not-mem-nil}
use mathlib.Core.Path.{subst}
use mogtrade_engine.Base.{
  ℕ, ◌≡◌, ◌⊎◌, true, false, some, inl, inr, String, List, [], ◌∷◌, ◌++◌, Mem, arith, Option-cases,
  Bool-cases, string_eq, ◌is◌,
}
use mogtrade_engine.Base.Dict.{lookup, insert, lookup-insert}
use mogtrade_engine.Decimal.{Decimals}
use mogtrade_engine.Database.Enums.{OrderSide}
use mogtrade_engine.Matching.Book.{OrderBook, PlaceMatchOrderParams, new_book}
use mogtrade_engine.Matching.Book.Valid.{IsBook}
use mogtrade_engine.Matching.Book.Add.{new_book-IsBook, add_order-IsBook}
use mogtrade_engine.Matching.Book.Remove.{remove_order-IsBook}
use mogtrade_engine.Matching.Engine.{OrderMatchedEventArgs}
use mogtrade_engine.Matching.Engine.Calls.{
  Engine, place_match_order, cancel_match_order, find_matches,
}
use mogtrade_engine.Matching.Engine.Trading.{match_book-Trades}
use mogtrade_engine.Matching.Apart.{IsApart, remove_order-IsApart, Trades-IsBook, Trades-IsApart}
use mogtrade_engine.Matching.Exchange.{
  System, new_system, Step, place, cancel, match_pending, Reach, here, after, PlacesPositive,
  AllPositive,
}

module _ (d : Decimals) where
  open d use {Amount, zero_amount, less_than}

  -- What holds of the book of a symbol while the findMatches of `pending` are to run.
  pub record IsKept (symbol : String) (b : OrderBook Amount) (pending : List String) : Type 0 where
    pub valid : IsBook d b
    pub uncrossed : IsApart d b ⊎ Mem symbol pending

  IsConsistent : Engine Amount → List String → Type 0
  IsConsistent e pending =
      (symbol : String) (b : OrderBook Amount)
      → lookup symbol e.books ≡ some b
      → IsKept symbol b pending

  -- The book of one symbol is replaced.
  IsConsistent-insert :
      (e : Engine Amount) (symbol : String) (b : OrderBook Amount) (before pending : List String)
      → IsConsistent e before
      → IsKept symbol b pending
      → ((x : String) → (symbol is x) ≡ false → Mem x before → Mem x pending)
      → IsConsistent (record { books = insert symbol b e.books }) pending
  unfolding IsConsistent
  IsConsistent-insert e symbol b before pending old new others x c found =
      elim (Bool-cases (symbol is x)) [
        | inl same ↦
            let key : symbol ≡ x = ground (arith, string_eq.beq_iff symbol x) in
            let book : b ≡ c = ground (arith, lookup-insert symbol x b e.books) in
            subst (λ y. IsKept y c pending) key (subst (λ y. IsKept symbol y pending) book new)
        | inr other ↦
            let k = old x c (ground (arith, lookup-insert symbol x b e.books)) in
            record {
              valid = k.valid;
              uncrossed = elim k.uncrossed [ inl h ↦ inl h | inr m ↦ inr (others x other m) ];
            }
      ]

  place-IsConsistent :
      (e : Engine Amount) (p : PlaceMatchOrderParams Amount) (pending : List String)
      → less_than zero_amount p.quantity ≡ true
      → IsConsistent e pending
      → IsConsistent (place_match_order d e p) (p.symbol ∷ pending)
  unfolding place_match_order IsConsistent
  place-IsConsistent e p pending positive h =
      let grow = λ (x : String) (other : (p.symbol is x) ≡ false) (m : Mem x pending).
        mem-cons_of_mem p.symbol m in
      elim (Option-cases (lookup p.symbol e.books)) [
        | inl fresh ↦
            rw (fresh, place_match_order)
              (IsConsistent-insert e p.symbol _ pending _ h
                (record {
                  valid = add_order-IsBook d (new_book d) p positive (new_book-IsBook d);
                  uncrossed = inr mem-cons_self;
                })
                grow)
        | inr (b, found) ↦
            rw (found, place_match_order)
              (IsConsistent-insert e p.symbol _ pending _ h
                (record {
                  valid = add_order-IsBook d b p positive (h p.symbol b found).valid;
                  uncrossed = inr mem-cons_self;
                })
                grow)
      ]

  cancel-IsConsistent :
      (e : Engine Amount) (pending : List String) (id symbol : String) (side : OrderSide)
      (price : Amount)
      → IsConsistent e pending
      → IsConsistent (cancel_match_order d e id symbol side price).0 pending
  unfolding cancel_match_order IsConsistent
  cancel-IsConsistent e pending id symbol side price h =
      elim (Option-cases (lookup symbol e.books)) [
        | inl unknown ↦ rw (unknown, cancel_match_order) h
        | inr (b, found) ↦
            let k = h symbol b found in
            rw (found, cancel_match_order)
              (IsConsistent-insert e symbol _ pending pending h
                (record {
                  valid = remove_order-IsBook d b id side price k.valid;
                  uncrossed = elim k.uncrossed [
                    | inl apart ↦ inl (remove_order-IsApart d b id side price k.valid apart)
                    | inr m ↦ inr m
                  ];
                })
                (λ x other m. m))
      ]

  -- The other pending symbols stay when one is taken out.
  still_pending :
      (started later : List String) (symbol x : String)
      → (symbol is x) ≡ false
      → Mem x (started ++ symbol ∷ later)
      → Mem x (started ++ later)
  still_pending started later symbol x other m =
      Or.elim Mem-prop (mem-cons.0 ((Perm.mem_iff (perm_middle started later)).0 m))
        (λ same. absurd (ground (arith, string_eq.beq_iff symbol x))) (λ rest. rest)

  match-IsConsistent :
      (started later : List String) (symbol : String) (clock : ℕ → ℕ)
      (evs : List (OrderMatchedEventArgs Amount)) (e f : Engine Amount)
      → find_matches d symbol clock e ≡ some (evs, f)
      → IsConsistent e (started ++ symbol ∷ later)
      → IsConsistent f (started ++ later)
  unfolding find_matches IsConsistent
  match-IsConsistent started later symbol clock evs e f done h =
      elim (Option-cases (lookup symbol e.books)) [
        | inl unknown ↦
            let same : e ≡ f = ground arith in
            subst (λ g. IsConsistent g (started ++ later)) same
              (λ x b found.
                let k = h x b found in
                record {
                  valid = k.valid;
                  uncrossed = elim k.uncrossed [
                    | inl apart ↦ inl apart
                    | inr m ↦ inr (
                        still_pending started later symbol x
                          (ground (arith, string_eq.beq_iff symbol x)) m)
                  ];
                })
        | inr (b, found) ↦
            let (r, matched, trades) =
              match_book-Trades d symbol clock b (h symbol b found).valid in
            let same : record { books = insert symbol r.1 e.books } ≡ f = ground arith in
            subst (λ g. IsConsistent g (started ++ later)) same
              (IsConsistent-insert e symbol r.1 (started ++ symbol ∷ later) (started ++ later) h
                (record {
                  valid = Trades-IsBook d symbol b r.0 r.1 trades;
                  uncrossed = inl (Trades-IsApart d symbol b r.0 r.1 trades);
                })
                (still_pending started later symbol))
      ]

  Step-IsConsistent :
      (s t : System Amount) (step : Step d s t)
      → PlacesPositive d step
      → IsConsistent s.engine s.pending
      → IsConsistent t.engine t.pending
  Step-IsConsistent s t (place p) positive h = place-IsConsistent s.engine p s.pending positive h
  Step-IsConsistent s t (cancel id symbol side price) any h =
      cancel-IsConsistent s.engine s.pending id symbol side price h
  Step-IsConsistent s t (match_pending started later symbol clock evs e pending done) any h =
      match-IsConsistent started later symbol clock evs s.engine e done (rw (← pending) h)

  Reach-IsConsistent :
      (s : System Amount) (r : Reach d new_system s)
      → AllPositive d r
      → IsConsistent s.engine s.pending
  unfolding IsConsistent lookup
  Reach-IsConsistent s here positive = λ symbol b found. absurd (ground arith)
  Reach-IsConsistent s (after r step) positive =
      Step-IsConsistent _ s step positive.1 (Reach-IsConsistent _ r positive.0)

  -- If every order that was placed had a positive quantity, then whatever calls have been made, in
  -- whatever order the started matches have run: each book is valid, and it has every bid below
  -- every ask or a findMatches of its symbol is still to run.
  pub Reach-IsKept :
      (s : System Amount) (symbol : String) (b : OrderBook Amount) (r : Reach d new_system s)
      → AllPositive d r
      → lookup symbol s.engine.books ≡ some b
      → IsKept symbol b s.pending
  unfolding IsConsistent
  Reach-IsKept s symbol b r positive found = Reach-IsConsistent s r positive symbol b found

  -- If every order that was placed had a positive quantity, then once no findMatches is left to
  -- run, no bid of any book reaches an ask.
  pub quiet-IsApart :
      (s : System Amount) (symbol : String) (b : OrderBook Amount) (r : Reach d new_system s)
      → AllPositive d r
      → s.pending ≡ []
      → lookup symbol s.engine.books ≡ some b
      → IsApart d b
  quiet-IsApart s symbol b r positive quiet found =
      elim (Reach-IsKept s symbol b r positive found).uncrossed [
        | inl apart ↦ apart
        | inr m ↦ absurd (not-mem-nil (rw quiet at m))
      ]
