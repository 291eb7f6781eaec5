-- ===== src/Controller/Reloading/Loaded.antt =====
-- What bootstrapMatchingEngine places.
use mathlib.Core.List.{append_assoc}
use mogtrade_engine.Base.{
  ◌≡◌, ◌∙◌, ◌⊎◌, refl, sym, ap, ℕ, suc, zero, ◌<◌, false, inl, inr, some, String, List, [], ◌∷◌,
  ◌++◌, take, length, length-append, arith,
}
use mogtrade_engine.Decimal.{Decimals}
use mogtrade_engine.Database.Enums.{wallet_type_eq}
use mogtrade_engine.Database.Rows.{Tables}
use mogtrade_engine.Database.TextOrder.{TextOrder}
use mogtrade_engine.Database.Choosing.{Distinct, last_of}
use mogtrade_engine.Database.Paging.{
  select_page, rows_after, rows_after-page, select_page-rows_after, length-rows_after,
}
use mogtrade_engine.Database.Session.{Session, Result, Error, ok, err}
use mogtrade_engine.Database.Session.Rules.{Holds, Holds-mono, done, failed}
use mogtrade_engine.Database.Listing.{
  row_id, order_id, open_orders, lookup_open_orders, open_orders-Distinct, length-open_orders,
}
use mogtrade_engine.Controller.Cancelling.{Engines}
use mogtrade_engine.Database.Session.Health.{is_healthy, healthy_read}
use mogtrade_engine.Controller.Reloading.{
  first_cursor, Row, Ends, page_placed, place_row, place_rows, load_pages,
  bootstrap_matching_engine,
}

module _ (d : Decimals) where
  open d use {Amount}

  place_rows-append :
      (engines : Engines Amount) (xs ys : List (Row d))
      → place_rows d engines (xs ++ ys) ≡ place_rows d (place_rows d engines xs) ys
  unfolding place_rows
  place_rows-append engines [] ys = refl
  place_rows-append engines (x ∷ xs) ys = place_rows-append (place_row d engines x) xs ys

  module _ (o : TextOrder) where
    -- The open orders after a cursor, ascending.
    abbrev pub waiting : String → Tables Amount → List (Row d)
    waiting cursor t = rows_after o row_id cursor (open_orders t)

    -- The loop ends, and has placed the first of the orders that wait, each once and in the order
    -- of their ids: all of them, unless a statement failed.
    pub record Reloads (cursor : String) (engines : Engines Amount) (s : Session Amount)
        (result : Ends d) : Type 0 where
      pub loaded : List (Row d)
      pub left : List (Row d)
      pub after : Session Amount
      pub split : waiting cursor s.tables ≡ loaded ++ left
      pub ends : result ≡ some (place_rows d engines loaded, after)
      pub same : after.tables ≡ s.tables
      pub whole : (left ≡ []) ⊎ (is_healthy s ≡ false)

    -- What the query for a page answers.
    abbrev IsPage : ℕ → String → Session Amount → List (Row d) → Session Amount → Type 0
    IsPage n cursor s page t =
        (page ≡ take (suc n) (waiting cursor s.tables))
        × (t.tables ≡ s.tables)
        × (is_healthy t ≡ is_healthy s)

    abbrev Stops : Session Amount → Error → Session Amount → Type 0
    Stops s e t = (t.tables ≡ s.tables) × (is_healthy s ≡ false)

    lookup_open_orders-IsPage :
        (n : ℕ) (cursor : String) (s : Session Amount)
        → Distinct order_id s.tables.orders
        → Holds (IsPage n cursor s) (Stops s) (lookup_open_orders o cursor (suc n) s)
    unfolding lookup_open_orders
    lookup_open_orders-IsPage n cursor s distinct =
        Holds-mono _ (healthy_read (λ t. select_page o row_id cursor (suc n) (open_orders t)) s)
          (λ e t h. h)
          (λ page t h. (
            h.0
                ∙ select_page-rows_after o row_id cursor (suc n) (open_orders s.tables)
                    (open_orders-Distinct s.tables distinct),
            h.1,
            h.2,
          ))

    none_left : (n : ℕ) (rows : List (Row d)) → [] ≡ take (suc n) rows → rows ≡ []
    none_left n [] h = refl
    none_left n (r ∷ rs) h = absurd (ground arith)

    -- After a page and the rest of the loop.
    after_page :
        (cursor : String) (engines : Engines Amount) (s t : Session Amount) (r : Row d)
        (rs : List (Row d)) (result : Ends d)
        → waiting cursor s.tables ≡ r ∷ (rs ++ waiting (row_id (last_of r rs)) s.tables)
        → t.tables ≡ s.tables
        → is_healthy t ≡ is_healthy s
        → Reloads (row_id (last_of r rs)) (place_rows d engines (r ∷ rs)) t result
        → Reloads cursor engines s result
    after_page cursor engines s t r rs result page same health rest = record {
      loaded = r ∷ (rs ++ rest.loaded);
      left = rest.left;
      after = rest.after;
      split =
          page
          ∙ ap (λ z. r ∷ (rs ++ z)) (rw same at rest.split)
          ∙ sym (append_assoc (r ∷ rs) rest.loaded rest.left);
      ends =
          rest.ends
          ∙ ap (λ z. some (z, rest.after)) (sym (place_rows-append engines (r ∷ rs) rest.loaded));
      same = rest.same ∙ same;
      whole = rw health at rest.whole;
    }

    page_placed-Reloads :
        (next : String → Engines Amount → Session Amount → Ends d) (n : ℕ) (cursor : String)
        (engines : Engines Amount) (s : Session Amount) (r : Result (List (Row d)) × Session Amount)
        → Distinct order_id s.tables.orders
        → Holds (IsPage n cursor s) (Stops s) r
        → ((later : String) (filled : Engines Amount) (t : Session Amount)
            → t.tables ≡ s.tables
            → length (waiting later s.tables) < length (waiting cursor s.tables)
            → Reloads later filled t (next later filled t))
        → Reloads cursor engines s (page_placed d next engines r)
    unfolding page_placed place_rows
    page_placed-Reloads next n cursor engines s (err e, t) distinct (failed h) rest = record {
      loaded = [];
      left = waiting cursor s.tables;
      after = t;
      split = refl;
      ends = refl;
      same = h.0;
      whole = inr h.1;
    }
    page_placed-Reloads next n cursor engines s (ok [], t) distinct (done h) rest = record {
      loaded = [];
      left = [];
      after = t;
      split = none_left n (waiting cursor s.tables) h.0;
      ends = refl;
      same = h.1;
      whole = inl refl;
    }
    page_placed-Reloads next n cursor engines s (ok (r ∷ rs), t) distinct (done h) rest =
        let page =
          rows_after-page o row_id cursor n r rs (open_orders s.tables)
            (open_orders-Distinct s.tables distinct) (sym h.0) in
        after_page cursor engines s t r rs _ page h.1 h.2 (
          rest (row_id (last_of r rs)) (place_rows d engines (r ∷ rs)) t h.1 (
            omega
              (arith, ap length page, length-append rs (waiting (row_id (last_of r rs)) s.tables))))

    load_pages-Reloads :
        (fuel n : ℕ) (cursor : String) (engines : Engines Amount) (s : Session Amount)
        → Distinct order_id s.tables.orders
        → length (waiting cursor s.tables) < fuel
        → Reloads cursor engines s (load_pages d o fuel (suc n) cursor engines s)
    unfolding load_pages
    load_pages-Reloads zero n cursor engines s distinct enough = absurd (omega arith)
    load_pages-Reloads (suc fuel) n cursor engines s distinct enough =
        page_placed-Reloads (load_pages d o fuel (suc n)) n cursor engines s _ distinct
          (lookup_open_orders-IsPage n cursor s distinct)
          (λ later filled t same shorter.
            load_pages-Reloads fuel n later filled t (rw same distinct) (rw same (omega arith)))

    -- Where no two orders have the same id, the loop ends, and has placed the first of the orders
    -- that are open and have a payer, each once, in the order of their ids: all that come after
    -- the first cursor, unless a statement failed. It changes no table.
    pub bootstrap_matching_engine-Reloads :
        (engines : Engines Amount) (s : Session Amount)
        → Distinct order_id s.tables.orders
        → Reloads first_cursor engines s (bootstrap_matching_engine d o engines s)
    unfolding bootstrap_matching_engine
    bootstrap_matching_engine-Reloads engines s distinct =
        load_pages-Reloads (suc (length s.tables.orders)) 999 first_cursor engines s distinct (
          omega (
            arith,
            length-rows_after o row_id first_cursor (open_orders s.tables),
            length-open_orders s.tables,
          ))
