-- ===== src/Controller/Pending/Batches.antt =====
-- A batch of applyPendingFills: what has been applied when it ends, and what is then pending.
use mathlib.Core.List.{append_assoc}
use mogtrade_engine.Base.{
  ⊤, ◌≡◌, ◌∙◌, refl, ap, ℕ, Bool, false, not, inl, inr, none, some, String, List, [], ◌∷◌, ◌++◌,
  map, All, arith, Bool-cases, string_eq, ◌is◌,
}
use mogtrade_engine.Decimal.{Decimals}
use mogtrade_engine.Database.Enums.{execution_filled, execution_status_eq}
use mogtrade_engine.Database.Rows.{Execution, Tables}
use mogtrade_engine.Database.TextOrder.{TextOrder}
use mogtrade_engine.Database.Table.{update_where, where_holds}
use mogtrade_engine.Database.Choosing.{Distinct, Distinct-where}
use mogtrade_engine.Database.Paging.{rows_after, rows_after-where}
use mogtrade_engine.Database.Keys.{itself}
use mogtrade_engine.Database.Session.{Session, Result, Error, ok, err}
use mogtrade_engine.Database.Session.Rules.{Holds, done, failed}
use mogtrade_engine.Database.Listing.{execution_id, waits}
use mogtrade_engine.Database.Executions.{executes, joined_statuses, set_statuses}
use mogtrade_engine.Orders.Executing.{filling, marking, IsApplied, apply_execution_fill-IsApplied}
use mogtrade_engine.Controller.Pending.{Fills, Next, filled_one, fill_batch}

module _ (d : Decimals) where
  open d use {Amount}

  -- The executions with these ids are applied one after the other.
  pub data Applies : List String → Tables Amount → Tables Amount → Type 0 where
    no_more : (x : Tables Amount) → Applies [] x x
    applies_one :
        (id : String) (ids : List String) (now : ℕ) (x y z : Tables Amount)
        → IsApplied d id now x y
        → Applies ids y z
        → Applies (id ∷ ids) x z

  -- The handler fails, or applies exactly the executions with the given ids.
  pub data Filled (s : Session Amount) (ids earlier : List String) : Fills d → Type 0 where
    stopped :
        (filled : List String) (e : Error) (t : Session Amount)
        → Filled s ids earlier (some (filled, (err e, t)))
    finished :
        (t : Session Amount)
        → Applies ids s.tables t.tables
        → Filled s ids earlier (some (earlier ++ ids, (ok tt, t)))

  abbrev pub pending_ids : Tables Amount → List String
  pending_ids t = map execution_id (where_holds waits t.executions)

  abbrev marked : ℕ → Execution Amount → Execution Amount
  marked now e = record e { exec_status = execution_filled; updated_at = now }

  -- An update keeps the id and the status.
  abbrev Keeps : (Execution Amount → Execution Amount) → Type 0
  Keeps f = (e : Execution Amount) → ((f e).id ≡ e.id) × ((f e).exec_status ≡ e.exec_status)

  set_statuses-Keeps :
      (now : ℕ) (t : Tables Amount) → Keeps (λ e. set_statuses now e (joined_statuses t e))
  set_statuses-Keeps now t e = keeps (joined_statuses t e)
    where
      keeps :
          (statuses : _)
          → ((set_statuses now e statuses).id ≡ e.id)
            × ((set_statuses now e statuses).exec_status ≡ e.exec_status)
      keeps (some (some bid, some ask)) = (refl, refl)
      keeps (some (some bid, none)) = (refl, refl)
      keeps (some (none, ask)) = (refl, refl)
      keeps none = (refl, refl)

  marking-pending :
      (id : String) (now : ℕ) (f : Execution Amount → Execution Amount)
      (xs : List (Execution Amount))
      → Keeps f
      → map execution_id (
          where_holds waits
            (update_where (executes id) f (update_where (executes id) (marked now) xs)))
        ≡ where_holds (λ i. not (i is id)) (map execution_id (where_holds waits xs))
  unfolding where_holds update_where
  marking-pending id now f [] keep = refl
  marking-pending id now f (x ∷ xs) keep = elim (Bool-cases (x.id is id)) [
    | inl here ↦
        let closed : waits (f (marked now x)) ≡ false = rw (keep (marked now x)).1 refl in
        elim (Bool-cases (waits x)) [
          | inl open_now ↦
              rw (here, here, closed, open_now, here) (marking-pending id now f xs keep)
          | inr shut ↦ rw (here, here, closed, shut) (marking-pending id now f xs keep)
        ]
    | inr other ↦ elim (Bool-cases (waits x)) [
      | inl open_now ↦
          rw (other, other, open_now, other)
            (ap (λ ids. x.id ∷ ids) (marking-pending id now f xs keep))
      | inr shut ↦ rw (other, other, shut) (marking-pending id now f xs keep)
    ]
  ]

  pending-applied :
      (id : String) (now : ℕ) (x y : Tables Amount)
      → IsApplied d id now x y
      → pending_ids y ≡ where_holds (λ i. not (i is id)) (pending_ids x)
  pending-applied id now x y h =
      let both_filled =
        filling d h.exec.match_quantity h.bid now (filling d h.exec.match_quantity h.ask now x) in
      ap pending_ids h.tables
      ∙ marking-pending id now
          (λ e. set_statuses now e (joined_statuses (marking d id now both_filled) e)) x.executions
          (set_statuses-Keeps now (marking d id now both_filled))

  applied_before :
      (id : String) (ids earlier : List String) (now : ℕ) (s t : Session Amount) (fills : Fills d)
      → IsApplied d id now s.tables t.tables
      → Filled t ids (earlier ++ id ∷ []) fills
      → Filled s (id ∷ ids) earlier fills
  applied_before id ids earlier now s t _ one (stopped filled e u) = stopped filled e u
  applied_before id ids earlier now s t _ one (finished u others) =
      rw (append_assoc earlier (id ∷ []) ids)
        (finished u (applies_one id ids now s.tables t.tables u.tables one others))

  filled_one-Filled :
      (next : Next d) (id : String) (ids earlier : List String) (s : Session Amount)
      (r : Result ⊤ × Session Amount)
      → Holds (λ x t. IsApplied d id s.now s.tables t.tables) (λ e t. ⊤) r
      → ((t : Session Amount)
          → pending_ids t.tables ≡ where_holds (λ i. not (i is id)) (pending_ids s.tables)
          → Filled t ids (earlier ++ id ∷ []) (next (earlier ++ id ∷ []) t))
      → Filled s (id ∷ ids) earlier (filled_one d next earlier id r)
  unfolding filled_one
  filled_one-Filled next id ids earlier s (err e, t) (failed h) rest = stopped earlier e t
  filled_one-Filled next id ids earlier s (ok x, t) (done h) rest =
      applied_before id ids earlier s.now s t _ h
        (rest t (pending-applied id s.now s.tables t.tables h))

  module _ (o : TextOrder) (last : String) (left : List String) where
    -- The pending executions after the last of the batch.
    abbrev pub Leaves : Session Amount → Type 0
    Leaves s =
        Distinct itself (pending_ids s.tables)
        × (rows_after o itself last (pending_ids s.tables) ≡ left)

    Leaves-applied :
        (id : String) (s t : Session Amount)
        → o.before last id ≡ false
        → pending_ids t.tables ≡ where_holds (λ i. not (i is id)) (pending_ids s.tables)
        → Leaves s
        → Leaves t
    Leaves-applied id s t not_after pending h =
        let others : String → Bool = λ i. not (i is id) in
        (
          rw pending (Distinct-where itself others (pending_ids s.tables) h.0),
          ap (rows_after o itself last) pending
              ∙ rows_after-where o itself last others (pending_ids s.tables) h.0 (λ i past.
                elim (Bool-cases (i is id)) [
                  | inr other ↦ ground (arith, other)
                  | inl here ↦
                      absurd (ground (arith, past, not_after, (string_eq.beq_iff i id).0 here))
                ])
              ∙ h.1,
        )

    pub fill_batch-Filled :
        (next : Next d) (ids earlier : List String) (s : Session Amount)
        → Leaves s
        → All (λ id. o.before last id ≡ false) ids
        → ((filled : List String) (t : Session Amount)
            → Leaves t
            → Filled t left filled (next filled t))
        → Filled s (ids ++ left) earlier (fill_batch d next ids earlier s)
    unfolding fill_batch
    fill_batch-Filled next [] earlier s leaves below rest = rest earlier s leaves
    fill_batch-Filled next (id ∷ ids) earlier s leaves below rest =
        filled_one-Filled (fill_batch d next ids) id (ids ++ left) earlier s _
          (apply_execution_fill-IsApplied d id s)
          (λ t pending.
            fill_batch-Filled next ids (earlier ++ id ∷ []) t
              (Leaves-applied id s t below.0 pending leaves) below.1 rest)

  pub Filled-same :
      (s t : Session Amount) (ids earlier : List String) (fills : Fills d)
      → t.tables ≡ s.tables
      → Filled t ids earlier fills
      → Filled s ids earlier fills
  Filled-same s t ids earlier _ same (stopped filled e u) = stopped filled e u
  Filled-same s t ids earlier _ same (finished u h) = finished u (rw same at h)
