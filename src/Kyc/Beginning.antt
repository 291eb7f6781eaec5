-- ===== src/Kyc/Beginning.antt =====
-- services/kyc/service.go, CreateRecord, in the transaction of handleBeginKyc: what becomes of an
-- application.
use mogtrade_engine.Base.{
  ⊤, ℕ, ◌≡◌, ◌⊎◌, ◌∙◌, refl, sym, ap, inl, inr, Bool-cases, true, false, Option, none, some, String,
  List, [], ◌∷◌, ◌++◌, string_eq, ◌is◌, is_refl, arith,
}
use mogtrade_engine.Database.People.{KycRecord}
use mogtrade_engine.Database.Rows.{Tables}
use mogtrade_engine.Database.Table.{both, any_where, first_where-none, first_where-last}
use mogtrade_engine.Database.Session.{
  attempt, read_now, one, Error, Session, Result, ok, err, is_no_rows,
}
use mogtrade_engine.Database.Session.Rules.{
  Holds-both, Holds, done, failed, Same, Holds-after, Holds-mono, one_now-Holds, write_unique-Holds,
}
use mogtrade_engine.Database.Transaction.{begun, with_transaction, with_transaction-Holds}
use mogtrade_engine.Database.Kyc.{
  KycRow, of_user, active_of, active_row, found_row, row_of, new_record, kyc_violates,
  create_kyc_record, lookup_active_kyc_for_user,
}
use mogtrade_engine.Kyc.Service.{
  CreateParams, params_of, create_and_find, create_where_missing, create_record,
}

none_active :
    (user : Option String) (ks : List KycRecord)
    → any_where (of_user user) ks ≡ false
    → any_where (active_of user) ks ≡ false
unfolding any_where
none_active user [] h = refl
none_active user (k ∷ ks) h = ground (arith, none_active user ks)

module _ {A : Type 0} (p : CreateParams) where
  -- What a successful call hands out, and what it makes of the tables.
  -- `Lost` says that the lookup, the first statement of the transaction, was not carried out.
  pub data Begins (Lost : Type 0) (now : ℕ) (s : Tables A) : Option KycRow → Tables A → Type 0 where
    ongoing :
        {t : Tables A} (row : KycRow)
        → active_row (some p.user_id) now s ≡ some row
        → t ≡ s
        → Begins Lost now s (some row) t
    applied :
        {t : Tables A} {row : KycRow}
        → any_where (of_user (some p.user_id)) s.kycs ≡ false
        → t ≡ record s { kycs = s.kycs ++ new_record now (params_of p) ∷ [] }
        → row ≡ row_of now (new_record now (params_of p))
        → Begins Lost now s (some row) t
    not_told : {t : Tables A} → Lost → t ≡ s → Begins Lost now s none t

  free_user :
      (s : Tables A)
      → kyc_violates (params_of p) s ≡ none
      → any_where (of_user (some p.user_id)) s.kycs ≡ false
  unfolding kyc_violates
  free_user s free = ground arith

  new_row :
      (now : ℕ) (s : Tables A)
      → any_where (of_user (some p.user_id)) s.kycs ≡ false
      → active_row
          (some p.user_id)
          now
          (record s { kycs = s.kycs ++ new_record now (params_of p) ∷ [] })
        ≡ some (row_of now (new_record now (params_of p)))
  unfolding both
  new_row now s free = ap (found_row now) (
      first_where-last (active_of (some p.user_id)) s.kycs (new_record now (params_of p))
        (none_active (some p.user_id) s.kycs free) (ground (arith, is_refl p.user_id)))

  abbrev IsLost : Session A → Type 0
  IsLost s = (attempt s).0 ≡ false

  -- The lookup fails on a missing row, or because it is not carried out.
  abbrev Absent : Session A → Error → Session A → Type 0
  Absent s e t = Same s t × ((is_no_rows e ≡ true) ⊎ IsLost s)

  no_rows_only :
      {X : Type 0} (o : Option X) (t : Session A)
      → Holds (λ x u. ⊤) (λ e u. is_no_rows e ≡ true) (one (ok o, t))
  no_rows_only none t = failed refl
  no_rows_only (some x) t = done tt

  lookup-Holds :
      (s : Session A)
      → Holds
          (λ x t. Same s t × (active_row (some p.user_id) s.now s.tables ≡ some x))
          (Absent s)
          (lookup_active_kyc_for_user (some p.user_id) s)
  unfolding lookup_active_kyc_for_user read_now
  lookup-Holds s = elim (Bool-cases (attempt s).0) [
    | inr lost ↦
        Holds-mono _ (one_now-Holds (active_row (some p.user_id)) s) (λ e t h. (h.0, inr lost))
          (λ x t h. h)
    | inl runs ↦
        Holds-mono _
          (Holds-both {R = λ x u. ⊤} {F = λ e u. is_no_rows e ≡ true} _
            (one_now-Holds (active_row (some p.user_id)) s)
            (rw (runs, read_now) (no_rows_only _ _)))
          (λ e t h. (h.0.0, inl h.1)) (λ x t h. h.0)
  ]

  create_and_find-Begins :
      (Lost : Type 0) (s : Session A)
      → Holds (λ x t. Begins Lost s.now s.tables x t.tables) (λ e t. ⊤) (create_and_find p s)
  unfolding create_and_find create_kyc_record
  create_and_find-Begins Lost s =
      Holds-after _ _ (write_unique-Holds (kyc_violates (params_of p)) _ s) (λ e t k. tt)
        (λ x t made.
          Holds-after _ _ (lookup-Holds t) (λ e u k. tt)
            (λ row u k.
              let free = free_user s.tables made.0 in
              done (
                applied free (k.0.tables ∙ made.1.0)
                  (ground (arith, new_row s.now s.tables free, rw (made.1.0, made.1.1) at k.1)))))

  missing-Begins :
      (Lost : Type 0) (s : Session A) (r : Result KycRow × Session A)
      → Holds
          (λ x t. Same s t × (active_row (some p.user_id) s.now s.tables ≡ some x))
          (λ e t. Same s t × ((is_no_rows e ≡ true) ⊎ Lost))
          r
      → Holds (λ x t. Begins Lost s.now s.tables x t.tables) (λ e t. ⊤) (create_where_missing p r)
  missing-Begins Lost s (ok row, t) (done h) = done (ongoing row h.1 h.0.tables)
  missing-Begins Lost s (err e, t) (failed h) = elim (Bool-cases (is_no_rows e)) [
    | inl missing ↦ rw missing (rw (← h.0.tables, ← h.0.now) (create_and_find-Begins Lost t))
    | inr other ↦ elim h.1 [
      | inl missing ↦ absurd (ground (arith, missing, other))
      | inr lost ↦ rw other (done (not_told lost h.0.tables))
    ]
  ]

  create_record-Holds :
      (Lost : Type 0) (s : Session A)
      → (IsLost s → Lost)
      → Holds (λ x t. Begins Lost s.now s.tables x t.tables) (λ e t. ⊤) (create_record p s)
  unfolding create_record
  create_record-Holds Lost s lost = elim (Bool-cases (p.user_id is "")) [
    | inl empty ↦ rw (empty, create_record) (failed tt)
    | inr named ↦
        rw (named, create_record)
          (missing-Begins Lost s (lookup_active_kyc_for_user (some p.user_id) s) (
            Holds-mono _ (lookup-Holds s)
              (λ e t h.
                (h.0, elim h.1 [ inl missing ↦ inl missing | inr fails ↦ inr (lost fails) ]))
              (λ x t h. h)))
  ]

  create_record-begun :
      (Lost : Type 0) (s from : Session A)
      → from.tables ≡ s.tables
      → from.now ≡ s.now
      → (IsLost from → Lost)
      → Holds (λ x t. Begins Lost s.now s.tables x t.tables) (λ e t. ⊤) (create_record p from)
  create_record-begun Lost s from tables now lost =
      rw (← tables, ← now) (create_record-Holds Lost from lost)

  -- An application that succeeds hands out the user's active record and changes nothing, or makes
  -- the user's first record, pending, and hands that out; or, only when its lookup was not carried
  -- out and the error was dropped, it hands out nothing and changes nothing. One that fails changes
  -- nothing.
  pub create_record-Begins :
      (s : Session A)
      → Holds
          (λ x t. Begins (IsLost (begun (attempt s).1)) s.now s.tables x t.tables)
          (λ e t. t.tables ≡ s.tables)
          (with_transaction (create_record p) s)
  create_record-Begins s =
      let Lost : Type 0 = IsLost (begun (attempt s).1) in
      with_transaction-Holds (λ x t. Begins Lost s.now s.tables x t) (create_record p) s
        (λ from run.
          create_record-begun Lost s from run.tables run.now
            (λ lost. ap (λ u. (attempt u).0) (sym run.exactly) ∙ lost))

  blocked :
      {Lost : Type 0} {now : ℕ} {s t : Tables A} {x : Option KycRow}
      → any_where (of_user (some p.user_id)) s.kycs ≡ true
      → any_where (active_of (some p.user_id)) s.kycs ≡ false
      → Begins Lost now s x t
      → (x ≡ none) × (t ≡ s)
  blocked {s} has inactive (ongoing row found same) =
      absurd (ground (arith, found, first_where-none (active_of (some p.user_id)) s.kycs inactive))
  blocked has inactive (applied free made told) = absurd (ground (arith, has, free))
  blocked has inactive (not_told lost same) = (refl, same)

  -- A user whose record was rejected or has expired gets no record from an application, and the
  -- tables stay what they are.
  pub create_record-blocked :
      (s : Session A)
      → any_where (of_user (some p.user_id)) s.tables.kycs ≡ true
      → any_where (active_of (some p.user_id)) s.tables.kycs ≡ false
      → Holds
          (λ x t. (x ≡ none) × (t.tables ≡ s.tables))
          (λ e t. t.tables ≡ s.tables)
          (with_transaction (create_record p) s)
  create_record-blocked s has inactive =
      Holds-mono _ (create_record-Begins s) (λ e t k. k) (λ x t k. blocked has inactive k)
