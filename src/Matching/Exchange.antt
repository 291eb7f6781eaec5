-- ===== src/Matching/Exchange.antt =====
-- The matching engine with the goroutines that PlaceMatchOrder starts: a system whose steps are
-- the engine's calls, in any order the mutexes of the books allow. `pending` holds the symbol of
-- each findMatches that has been started and has not run; `published` is what the bus was given.
pub mod Invariant
pub mod Settlement
use mogtrade_engine.Base.{ℕ, suc, ◌≡◌, true, some, String, List, [], ◌∷◌, ◌++◌}
use mogtrade_engine.Decimal.{Decimals}
use mogtrade_engine.Database.Enums.{OrderSide}
use mogtrade_engine.Matching.Book.{PlaceMatchOrderParams}
use mogtrade_engine.Matching.Engine.{OrderMatchedEventArgs}
use mogtrade_engine.Matching.Engine.Calls.{
  Engine, place_match_order, cancel_match_order, find_matches,
}

pub record System (A : Type 0) : Type 0 where
  pub engine : Engine A
  pub pending : List String
  pub published : List (OrderMatchedEventArgs A)

-- NewMatchingEngine
abbrev pub new_system : {A : Type 0} → System A
new_system = record { engine = record { books = [] }; pending = []; published = [] }

module _ (d : Decimals) where
  open d use {Amount, zero_amount, less_than}

  abbrev pub placed : System Amount → PlaceMatchOrderParams Amount → System Amount
  placed s p = record {
    engine = place_match_order d s.engine p;
    pending = p.symbol ∷ s.pending;
    published = s.published;
  }

  abbrev pub cancelled : System Amount → String → String → OrderSide → Amount → System Amount
  cancelled s id symbol side price = record s {
    engine = (cancel_match_order d s.engine id symbol side price).0;
  }

  -- One call of the engine, of any quantity, or one findMatches that runs to its end.
  pub data Step (s : System Amount) : System Amount → Type 0 where
    place : (p : PlaceMatchOrderParams Amount) → Step s (placed s p)
    cancel :
        (id symbol : String) (side : OrderSide) (price : Amount)
        → Step s (cancelled s id symbol side price)
    match_pending :
        (started later : List String) (symbol : String) (clock : ℕ → ℕ)
        (evs : List (OrderMatchedEventArgs Amount)) (e : Engine Amount)
        → s.pending ≡ started ++ symbol ∷ later
        → find_matches d symbol clock s.engine ≡ some (evs, e)
        → Step s (record { engine = e; pending = started ++ later; published = s.published ++ evs })

  pub data Reach (s : System Amount) : System Amount → Type 0 where
    here : Reach s s
    after : {t u : System Amount} → Reach s t → Step t u → Reach s u

  -- An order that is placed has a positive quantity.
  abbrev pub PlacesPositive : {s t : System Amount} → Step s t → Type 0
  PlacesPositive (place p) = less_than zero_amount p.quantity ≡ true
  PlacesPositive (cancel id symbol side price) = Unit
  PlacesPositive (match_pending started later symbol clock evs e pending done) = Unit

  -- Every order that was placed on the way had a positive quantity.
  abbrev pub AllPositive : {s t : System Amount} → Reach s t → Type 0
  AllPositive here = Unit
  AllPositive (after r step) = AllPositive r × PlacesPositive step

  -- Runs of started matches alone, with the number of them.
  pub data Drains : System Amount → ℕ → System Amount → Type 0 where
    drained : {s : System Amount} → Drains s 0 s
    match_first :
        {s u : System Amount} {n : ℕ} (symbol : String) (later : List String) (clock : ℕ → ℕ)
        (evs : List (OrderMatchedEventArgs Amount)) (e : Engine Amount)
        → s.pending ≡ symbol ∷ later
        → find_matches d symbol clock s.engine ≡ some (evs, e)
        → Drains (record { engine = e; pending = later; published = s.published ++ evs }) n u
        → Drains s (suc n) u
