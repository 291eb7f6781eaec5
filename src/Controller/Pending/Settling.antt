-- ===== src/Controller/Pending/Settling.antt =====
-- The loop of applyPendingFills and its transaction.
use mathlib.Core.List.{append-nil}
use mathlib.Core.Path.{subst}
use mogtrade_engine.Base.{
  ⊤, ◌≡◌, ◌∙◌, refl, sym, ap, ℕ, suc, zero, ◌<◌, inl, inr, some, String, List, [], ◌∷◌, ◌++◌, map,
  length, length-append, take, arith, Bool-cases,
}
use mogtrade_engine.Decimal.{Decimals}
use mogtrade_engine.Database.Rows.{Execution, Tables}
use mogtrade_engine.Database.TextOrder.{TextOrder}
use mogtrade_engine.Database.Table.{where_holds}
use mogtrade_engine.Database.Choosing.{Distinct, Distinct-where, last_of, length-where}
use mogtrade_engine.Database.Paging.{
  select_page, rows_after, select_page-rows_after, rows_after-page, page-none_after,
  length-rows_after,
}
use mogtrade_engine.Database.Keys.{itself, map-Distinct, map-select_page}
use mogtrade_engine.Database.Session.{
  Session, Result, Error, ok, err, database_failed, attempt, attempt-tables,
}
use mogtrade_engine.Database.Session.Rules.{Holds, Holds-mono, done, failed, read-Holds}
use mogtrade_engine.Database.Transaction.{begun, with_transaction-Holds}
use mogtrade_engine.Database.Listing.{execution_id, waits, lookup_pending_executions}
use mogtrade_engine.Controller.Reloading.{first_cursor}
use mogtrade_engine.Controller.Pending.{
  Fills, Next, page_filled, captured, with_captured, fill_pages, apply_pending_fills,
}
use mogtrade_engine.Controller.Pending.Batches.{
  Applies, no_more, Filled, stopped, finished, pending_ids, Filled-same, fill_batch-Filled,
}

module _ (d : Decimals) (o : TextOrder) where
  open d use {Amount}

  -- The ids of the pending executions after a cursor, in order.
  abbrev pub pending_after : String → Tables Amount → List String
  pending_after cursor t = rows_after o itself cursor (pending_ids d t)

  abbrev IsPage : ℕ → String → Session Amount → List String → Session Amount → Type 0
  IsPage n cursor s ids t =
      (t.tables ≡ s.tables) × (ids ≡ take (suc n) (pending_after cursor s.tables))

  lookup_pending_executions-IsPage :
      (n : ℕ) (cursor : String) (s : Session Amount)
      → Distinct itself (pending_ids d s.tables)
      → Holds (IsPage n cursor s) (λ e t. ⊤) (lookup_pending_executions o cursor (suc n) s)
  unfolding lookup_pending_executions
  lookup_pending_executions-IsPage n cursor s distinct =
      Holds-mono _
        (read-Holds
          (λ t.
            map execution_id
              (select_page o execution_id cursor (suc n) (where_holds waits t.executions)))
          s)
        (λ e t h. tt)
        (λ ids t h. (
          h.0.tables,
          h.1
              ∙ map-select_page execution_id o cursor (suc n)
                  (where_holds waits s.tables.executions)
              ∙ select_page-rows_after o itself cursor (suc n) (pending_ids d s.tables) distinct,
        ))

  none_left : (n : ℕ) (ids : List String) → [] ≡ take (suc n) ids → ids ≡ []
  none_left n [] h = refl
  none_left n (id ∷ ids) h = absurd (ground arith)

  nothing_more :
      (ids earlier : List String) (s t : Session Amount)
      → ids ≡ []
      → t.tables ≡ s.tables
      → Filled d s ids earlier (some (earlier, (ok tt, t)))
  nothing_more ids earlier s t none_there same = rw none_there (
      subst (λ filled. Filled d s [] earlier (some (filled, (ok tt, t)))) (append-nil earlier)
        (finished t (rw same (no_more s.tables))))

  page_filled-Filled :
      (next : String → Next d) (n : ℕ) (cursor : String) (earlier : List String)
      (s : Session Amount) (r : Result (List String) × Session Amount)
      → Distinct itself (pending_ids d s.tables)
      → Holds (IsPage n cursor s) (λ e t. ⊤) r
      → ((later : String) (filled : List String) (t : Session Amount)
          → Distinct itself (pending_ids d t.tables)
          → length (pending_after later t.tables) < length (pending_after cursor s.tables)
          → Filled d t (pending_after later t.tables) filled (next later filled t))
      → Filled d s (pending_after cursor s.tables) earlier (page_filled d next earlier r)
  unfolding page_filled
  page_filled-Filled next n cursor earlier s (err e, t) distinct (failed h) rest =
      stopped earlier e t
  page_filled-Filled next n cursor earlier s (ok [], t) distinct (done h) rest =
      nothing_more (pending_after cursor s.tables) earlier s t
        (none_left n (pending_after cursor s.tables) h.1) h.0
  page_filled-Filled next n cursor earlier s (ok (id ∷ ids), t) distinct (done h) rest =
      let last = last_of id ids in
      let left = pending_after last s.tables in
      let page =
        rows_after-page o itself cursor n id ids (pending_ids d s.tables) distinct (sym h.1) in
      rw page (
        Filled-same d s t ((id ∷ ids) ++ left) earlier _ h.0 (
          fill_batch-Filled d o last left (next last) (id ∷ ids) earlier t
            (rw h.0 distinct, ap (pending_after last) h.0)
            (page-none_after o itself cursor n id ids (pending_ids d s.tables) distinct (sym h.1))
            (λ filled u leaves. rw leaves.1 at (
              rest last filled u leaves.0
                (omega (arith, ap length page, length-append ids left, ap length leaves.1))))))

  fill_pages-Filled :
      (fuel n : ℕ) (cursor : String) (earlier : List String) (s : Session Amount)
      → Distinct itself (pending_ids d s.tables)
      → length (pending_after cursor s.tables) < fuel
      → Filled d s
          (pending_after cursor s.tables)
          earlier
          (fill_pages d o fuel (suc n) cursor earlier s)
  unfolding fill_pages
  fill_pages-Filled zero n cursor earlier s distinct enough = absurd (omega arith)
  fill_pages-Filled (suc fuel) n cursor earlier s distinct enough =
      page_filled-Filled (fill_pages d o fuel (suc n)) n cursor earlier s _ distinct
        (lookup_pending_executions-IsPage n cursor s distinct)
        (λ later filled t apart less. fill_pages-Filled fuel n later filled t apart (omega arith))

  length-ids : (es : List (Execution Amount)) → length (map execution_id es) ≡ length es
  length-ids [] = refl
  length-ids (e ∷ es) = ap suc (length-ids es)

  -- How the transaction ends, and the ids for which an event is published.
  pub data Settles (s : Session Amount) : Fills d → Type 0 where
    undone :
        (published : List String) (e : Error) (t : Session Amount)
        → t.tables ≡ s.tables
        → Settles s (some (published, (err e, t)))
    settled :
        (t : Session Amount)
        → Applies d (pending_after first_cursor s.tables) s.tables t.tables
        → Settles s (some (pending_after first_cursor s.tables, (ok tt, t)))

  undone_by :
      (s : Session Amount) (published : List String) (r : Result ⊤ × Session Amount)
      → Holds (λ x t. ⊥) (λ e t. t.tables ≡ s.tables) r
      → Settles s (some (published, r))
  undone_by s published (ok x, t) (done h) = absurd h
  undone_by s published (err e, t) (failed h) = undone published e t h

  settled_by :
      (s : Session Amount) (r : Result ⊤ × Session Amount)
      → Holds
          (λ x t. Applies d (pending_after first_cursor s.tables) s.tables t.tables)
          (λ e t. t.tables ≡ s.tables)
          r
      → Settles s (some (pending_after first_cursor s.tables, r))
  settled_by s (ok x, t) (done h) = settled t h
  settled_by s (err e, t) (failed h) = undone _ e t h

  captured-Settles :
      (s from : Session Amount) (ids : List String) (fills : Fills d)
      → ids ≡ pending_after first_cursor s.tables
      → from.tables ≡ s.tables
      → Filled d from ids [] fills
      → Settles s (captured d s fills)
  unfolding captured
  captured-Settles s from ids _ all same (stopped filled e u) =
      undone_by s filled _
        (with_transaction-Holds (λ x t. ⊥) (λ t. (err e, u)) s (λ t begins. failed tt))
  captured-Settles s from ids _ all same (finished u h) = rw all (
      settled_by s _ (
        with_transaction-Holds (λ x t. Applies d (pending_after first_cursor s.tables) s.tables t)
          (λ t. (ok tt, u)) s (λ t begins. done (rw (all, same) at h))))

  -- Where no two executions have the same id, the loop ends. Either the transaction fails, and no
  -- table changes, whatever ids are then published; or it commits, and all pending executions
  -- after the first cursor have been applied, each once and in the order of their ids, and nothing
  -- else has changed; the published ids are then theirs.
  pub apply_pending_fills-Settles :
      (s : Session Amount)
      → Distinct execution_id s.tables.executions
      → Settles s (apply_pending_fills d o s)
  unfolding apply_pending_fills with_captured
  apply_pending_fills-Settles s distinct =
      let from = begun (attempt s).1 in
      let same : from.tables ≡ s.tables = attempt-tables s in
      let waiting = where_holds waits s.tables.executions in
      let apart : Distinct itself (pending_ids d s.tables) =
        map-Distinct execution_id waiting
          (Distinct-where execution_id waits s.tables.executions distinct) in
      let enough : length (pending_after first_cursor s.tables) < suc (length s.tables.executions) =
        omega (
          arith,
          length-rows_after o itself first_cursor (pending_ids d s.tables),
          length-ids waiting,
          length-where waits s.tables.executions,
        ) in
      elim (Bool-cases (attempt s).0) [
        | inr fails ↦ rw fails (undone [] database_failed (attempt s).1 (attempt-tables s))
        | inl began ↦ rw began (
            captured-Settles s from _ _ (ap (pending_after first_cursor) same) same (
              fill_pages-Filled (suc (length s.tables.executions)) 999 first_cursor [] from
                (rw same apart) (rw same enough)))
      ]
