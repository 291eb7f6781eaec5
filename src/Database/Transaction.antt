-- ===== src/Database/Transaction.antt =====
-- app/helpers/utils.go: a handler inside a transaction. Begin and Commit may fail as any
-- statement; the deferred Rollback undoes what was not committed, and does nothing after a commit.
use mogtrade_engine.Base.{⊤, ◌≡◌, refl, ap, true, false, inl, inr, if◌then◌else◌, Bool-cases}
use mogtrade_engine.Database.Rows.{Tables}
use mogtrade_engine.Database.Session.{
  Session, Query, Result, ok, err, database_failed, attempt, attempt-tables, attempt-now,
  Result-cases,
}
use mogtrade_engine.Database.Session.Rules.{Holds, done, failed, Holds-ok}

module _ {A : Type 0} where
  abbrev pub begun : Session A → Session A
  begun s = record s { in_transaction = true }

  abbrev pub ended : Session A → Session A
  ended s = record s { in_transaction = false; aborted = false }

  abbrev pub rolled_back : Tables A → Session A → Session A
  rolled_back before s = record (ended s) { tables = before }

  -- WithTransaction, WithValueTransaction and their forms on a *db.Queries. The pool's sessions
  -- are not in a transaction. A transaction that was aborted cannot be committed.
  unfoldable pub with_transaction : {X : Type 0} → Query A X → Query A X
  with_transaction handler s =
      let (began, s1) = attempt s in
      if began
      then (let (r, t) = handler (begun s1) in
          elim r [
            | err e ↦ (err e, rolled_back s1.tables t)
            | ok x ↦
                let (committed, u) = attempt t in
                if committed
                then (ok x, ended u)
                else (err database_failed, rolled_back s1.tables u)
          ])
      else (err database_failed, s1)

  -- Begin, the handler, Rollback on its error, and a Commit whose own error is not looked at.
  unfoldable pub with_unchecked_commit : {X : Type 0} → Query A X → Query A X
  with_unchecked_commit handler s =
      let (began, s1) = attempt s in
      if began
      then (let (r, t) = handler (begun s1) in
          elim r [
            | err e ↦ (err e, rolled_back s1.tables t)
            | ok x ↦
                let (committed, u) = attempt t in
                (ok x, if committed then ended u else rolled_back s1.tables u)
          ])
      else (err database_failed, s1)

  -- How a handler begins.
  pub record Begun (s from : Session A) : Type 0 where
    pub tables : from.tables ≡ s.tables
    pub now : from.now ≡ s.now
    pub inside : from.in_transaction ≡ true
    pub exactly : from ≡ begun (attempt s).1

  -- What a handler that was run between `s` and the result has done.
  pub data Atomic {X : Type 0} (handler : Query A X) (s : Session A)
      : Result X × Session A → Type 0 where
    undone : (e : _) (t : Session A) → t.tables ≡ s.tables → Atomic handler s (err e, t)
    committed :
        (x : X) (from to t : Session A)
        → Begun s from
        → handler from ≡ (ok x, to)
        → t.tables ≡ to.tables
        → Atomic handler s (ok x, t)

  -- A transaction is all or nothing: an error leaves the tables as they were, whatever the handler
  -- had written, and a success leaves exactly the tables that the handler ended with.
  pub with_transaction-Atomic :
      {X : Type 0} (handler : Query A X) (s : Session A)
      → Atomic handler s (with_transaction handler s)
  unfolding with_transaction
  with_transaction-Atomic handler s =
      let from = begun (attempt s).1 in
      let to = (handler from).1 in
      elim (Bool-cases (attempt s).0) [
        | inr not_begun ↦ rw (not_begun, with_transaction) (undone _ _ (attempt-tables s))
        | inl began ↦ elim (Result-cases (handler from).0) [
          | inr (e, e_is) ↦ rw (began, e_is, with_transaction) (undone e _ (attempt-tables s))
          | inl (x, x_is) ↦ elim (Bool-cases (attempt to).0) [
            | inr refused ↦
                rw (began, x_is, refused, with_transaction) (undone _ _ (attempt-tables s))
            | inl kept ↦
                rw (began, x_is, kept, with_transaction)
                  (committed x from to _
                    (record {
                      tables = attempt-tables s;
                      now = attempt-now s;
                      inside = refl;
                      exactly = refl;
                    })
                    (ap (λ r. (r, to)) x_is) (attempt-tables to))
          ]
        ]
      ]

  Atomic-Holds :
      {X : Type 0} (P : X → Tables A → Type 0) (handler : Query A X) (s : Session A)
      (r : Result X × Session A)
      → ((from : Session A) → Begun s from → Holds (λ x t. P x t.tables) (λ e t. ⊤) (handler from))
      → Atomic handler s r
      → Holds (λ x t. P x t.tables) (λ e t. t.tables ≡ s.tables) r
  Atomic-Holds P handler s r h (undone e t kept) = failed kept
  Atomic-Holds P handler s r h (committed x from to t same ran kept) =
      done (rw kept (Holds-ok {Q = λ y u. P y u.tables} {E = λ e u. ⊤} (rw ran at (h from same))))

  -- What a handler makes of the tables when it is done, its transaction makes of them.
  pub with_transaction-Holds :
      {X : Type 0} (P : X → Tables A → Type 0) (handler : Query A X) (s : Session A)
      → ((from : Session A) → Begun s from → Holds (λ x t. P x t.tables) (λ e t. ⊤) (handler from))
      → Holds (λ x t. P x t.tables) (λ e t. t.tables ≡ s.tables) (with_transaction handler s)
  with_transaction-Holds P handler s h =
      Atomic-Holds P handler s _ h (with_transaction-Atomic handler s)
