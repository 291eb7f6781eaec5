-- ===== src/Database/Session/Rules.antt =====
-- What a query does, by how it ends: rules to put together what its statements do.
use mogtrade_engine.Base.{
  ℕ, ◌≡◌, ◌⊎◌, ◌∙◌, refl, sym, ap, true, Option, none, some, inl, inr, String, Bool-cases,
  Option-cases,
}
use mogtrade_engine.Database.Rows.{Tables}
use mogtrade_engine.Database.Session.{
  Error, no_rows, unique_violation, database_failed, Result, ok, err, Session, Query, attempt,
  attempt-tables, attempt-now, attempt-in_transaction, attempt-aborted, aborted-attempt, is_panic,
  Faulty, attempt-Faulty, attempt_fails-Faulty, read, read_now, write, write_unique, or_fail,
  dropped, one, handled, after,
}

module _ {A : Type 0} where
  -- The tables, the clock and the transaction are the same, and no fault is new.
  pub record Same (s t : Session A) : Type 0 where
    pub tables : t.tables ≡ s.tables
    pub now : t.now ≡ s.now
    pub mode : t.in_transaction ≡ s.in_transaction
    pub faulty : Faulty t → Faulty s

  pub Same-trans : (s t u : Session A) → Same s t → Same t u → Same s u
  Same-trans s t u h k = record {
    tables = k.tables ∙ h.tables;
    now = k.now ∙ h.now;
    mode = k.mode ∙ h.mode;
    faulty = λ later. h.faulty (k.faulty later);
  }

  attempt-Same : (s : Session A) → Same s (attempt s).1
  attempt-Same s = record {
    tables = attempt-tables s;
    now = attempt-now s;
    mode = attempt-in_transaction s;
    faulty = attempt-Faulty s;
  }

  -- What holds of the result and the session when a query is done, and when it fails.
  pub data Holds {X : Type 0} (Q : X → Session A → Type 0) (E : Error → Session A → Type 0)
      : Result X × Session A → Type 0 where
    done : {x : X} {t : Session A} → Q x t → Holds Q E (ok x, t)
    failed : {e : Error} {t : Session A} → E e t → Holds Q E (err e, t)

  module _ {X : Type 0} {Q : X → Session A → Type 0} {E : Error → Session A → Type 0} where
    pub Holds-after :
        {Y : Type 0} {R : Y → Session A → Type 0} {F : Error → Session A → Type 0}
        (r : Result X × Session A) (k : X → Query A Y)
        → Holds Q E r
        → ((e : Error) (t : Session A) → E e t → F e t)
        → ((x : X) (t : Session A) → Q x t → Holds R F (k x t))
        → Holds R F (after r k)
    Holds-after (ok x, t) k (done h) otherwise next = next x t h
    Holds-after (err e, t) k (failed h) otherwise next = failed (otherwise e t h)

    pub Holds-ok : {x : X} {t : Session A} → Holds Q E (ok x, t) → Q x t
    Holds-ok (done h) = h

    pub Holds-err : {e : Error} {t : Session A} → Holds Q E (err e, t) → E e t
    Holds-err (failed h) = h

    pub Holds-mono :
        {R : X → Session A → Type 0} {F : Error → Session A → Type 0} (r : Result X × Session A)
        → Holds Q E r
        → ((e : Error) (t : Session A) → E e t → F e t)
        → ((x : X) (t : Session A) → Q x t → R x t)
        → Holds R F r
    Holds-mono (ok x, t) (done h) otherwise next = done (next x t h)
    Holds-mono (err e, t) (failed h) otherwise next = failed (otherwise e t h)

    pub Holds-both :
        {R : X → Session A → Type 0} {F : Error → Session A → Type 0} (r : Result X × Session A)
        → Holds Q E r
        → Holds R F r
        → Holds (λ x t. Q x t × R x t) (λ e t. E e t × F e t) r
    Holds-both (ok x, t) (done h) (done k) = done (h, k)
    Holds-both (err e, t) (failed h) (failed k) = failed (h, k)

    pub Holds-handled :
        {F : Error → Session A → Type 0} (f : Error → Error) (r : Result X × Session A)
        → Holds Q E r
        → ((e : Error) (t : Session A) → E e t → F (f e) t)
        → Holds Q F (handled f r)
    Holds-handled f (ok x, t) (done h) otherwise = done h
    Holds-handled f (err e, t) (failed h) otherwise = failed (otherwise e t h)

  -- The statement is not carried out.
  abbrev pub Broken : Session A → Error → Session A → Type 0
  Broken s e t = Same s t × (e ≡ database_failed) × Faulty s

  pub read-Holds :
      {X : Type 0} (f : Tables A → X) (s : Session A)
      → Holds (λ x t. Same s t × (x ≡ f s.tables)) (Broken s) (read f s)
  unfolding read
  read-Holds f s = elim (Bool-cases (attempt s).0) [
    | inl runs ↦ rw (runs, read) (done (attempt-Same s, ap f (attempt-tables s)))
    | inr fails ↦ rw (fails, read) (failed (attempt-Same s, refl, attempt_fails-Faulty s fails))
  ]

  pub read_now-Holds :
      {X : Type 0} (f : ℕ → Tables A → X) (s : Session A)
      → Holds (λ x t. Same s t × (x ≡ f s.now s.tables)) (Broken s) (read_now f s)
  unfolding read_now
  read_now-Holds f s = elim (Bool-cases (attempt s).0) [
    | inl runs ↦
        rw (runs, read_now) (done (attempt-Same s, rw (attempt-tables s, attempt-now s) refl))
    | inr fails ↦ rw (fails, read_now) (failed (attempt-Same s, refl, attempt_fails-Faulty s fails))
  ]

  -- The row is missing, or the statement is not carried out.
  abbrev pub Missing : {X : Type 0} → (Tables A → Option X) → Session A → Error → Session A → Type 0
  Missing f s e t =
      Same s t × (((e ≡ database_failed) × Faulty s) ⊎ ((e ≡ no_rows) × (f s.tables ≡ none)))

  one-Holds_of :
      {X : Type 0} (f : Tables A → Option X) (s : Session A) (r : Result (Option X) × Session A)
      → Holds (λ x t. Same s t × (x ≡ f s.tables)) (Broken s) r
      → Holds (λ x t. Same s t × (f s.tables ≡ some x)) (Missing f s) (one r)
  one-Holds_of f s (ok none, t) (done h) = failed (h.0, inr (refl, sym h.1))
  one-Holds_of f s (ok (some x), t) (done h) = done (h.0, sym h.1)
  one-Holds_of f s (err e, t) (failed h) = failed (h.0, inl (h.1, h.2))

  pub one-Holds :
      {X : Type 0} (f : Tables A → Option X) (s : Session A)
      → Holds (λ x t. Same s t × (f s.tables ≡ some x)) (Missing f s) (one (read f s))
  one-Holds f s = one-Holds_of f s (read f s) (read-Holds f s)

  pub one_now-Holds :
      {X : Type 0} (f : ℕ → Tables A → Option X) (s : Session A)
      → Holds
          (λ x t. Same s t × (f s.now s.tables ≡ some x))
          (Missing (f s.now) s)
          (one (read_now f s))
  one_now-Holds f s = one-Holds_of (f s.now) s (read_now f s) (read_now-Holds f s)

  abbrev pub Writes : (ℕ → Tables A → Tables A) → Session A → Session A → Type 0
  Writes f s t = (t.tables ≡ f s.now s.tables) × (t.now ≡ s.now)

  pub write-Holds :
      (f : ℕ → Tables A → Tables A) (s : Session A)
      → Holds (λ x t. Writes f s t) (Broken s) (write f s)
  unfolding write
  write-Holds f s = elim (Bool-cases (attempt s).0) [
    | inl runs ↦ rw (runs, write) (done (rw (attempt-tables s, attempt-now s) refl, attempt-now s))
    | inr fails ↦ rw (fails, write) (failed (attempt-Same s, refl, attempt_fails-Faulty s fails))
  ]

  -- The same, but a transaction may have ended.
  pub record Untouched (s t : Session A) : Type 0 where
    pub tables : t.tables ≡ s.tables
    pub now : t.now ≡ s.now
    pub mode : t.in_transaction ≡ s.in_transaction

  Same-Untouched : (s t : Session A) → Same s t → Untouched s t
  Same-Untouched s t h = record { tables = h.tables; now = h.now; mode = h.mode }

  -- A unique index refuses the row, or the statement is not carried out.
  abbrev pub Refused : (Tables A → Option String) → Session A → Error → Session A → Type 0
  Refused violated s e t =
      Untouched s t
      × (((e ≡ database_failed) × Faulty s)
          ⊎ ((index : String) × (e ≡ unique_violation index) × (violated s.tables ≡ some index)))

  pub write_unique-Holds :
      (violated : Tables A → Option String) (f : ℕ → Tables A → Tables A) (s : Session A)
      → Holds
          (λ x t. (violated s.tables ≡ none) × Writes f s t)
          (Refused violated s)
          (write_unique violated f s)
  unfolding write_unique
  write_unique-Holds violated f s = elim (Bool-cases (attempt s).0) [
    | inr fails ↦
        rw (fails, write_unique)
          (failed (
            Same-Untouched s (attempt s).1 (attempt-Same s),
            inl (refl, attempt_fails-Faulty s fails),
          ))
    | inl runs ↦ elim (Option-cases (violated s.tables)) [
      | inl free ↦
          let free_now : violated (attempt s).1.tables ≡ none =
            ap violated (attempt-tables s) ∙ free in
          rw (runs, free_now, write_unique)
            (done (free, (rw (attempt-tables s, attempt-now s) refl, attempt-now s)))
      | inr (index, taken) ↦
          let taken_now : violated (attempt s).1.tables ≡ some index =
            ap violated (attempt-tables s) ∙ taken in
          rw (runs, taken_now, write_unique)
            (failed (
              record {
                tables = attempt-tables s;
                now = attempt-now s;
                mode = attempt-in_transaction s;
              },
              inr (index, refl, taken),
            ))
    ]
  ]

  -- One change of the tables after another.
  pub Writes-then :
      (f g : ℕ → Tables A → Tables A) (s t u : Session A)
      → Writes f s t
      → Writes g t u
      → Writes (λ now x. g now (f now x)) s u
  Writes-then f g s t u first then_second =
      (then_second.0 ∙ rw (first.0, first.1) refl, then_second.1 ∙ first.1)

  pub or_fail-Holds :
      {X : Type 0} (o : Option X) (e : Error) (s : Session A)
      → Holds (λ x t. (o ≡ some x) × (t ≡ s)) (λ f t. (t ≡ s) × (o ≡ none)) (or_fail o e s)
  or_fail-Holds none e s = failed (refl, refl)
  or_fail-Holds (some x) e s = done (refl, refl)

  -- A call whose error is dropped fails by a panic only.
  pub dropped-Holds :
      {X : Type 0} {Q : X → Session A → Type 0} {E : Error → Session A → Type 0}
      {R : Option X → Session A → Type 0} {F : Error → Session A → Type 0}
      (r : Result X × Session A)
      → Holds Q E r
      → ((e : Error) (t : Session A) → E e t → F e t)
      → ((e : Error) (t : Session A) → E e t → R none t)
      → ((x : X) (t : Session A) → Q x t → R (some x) t)
      → Holds R F (dropped r)
  dropped-Holds (ok x, t) (done h) panics otherwise next = done (next x t h)
  dropped-Holds (err e, t) (failed h) panics otherwise next = elim (Bool-cases (is_panic e)) [
    | inl panic ↦ rw panic (failed (panics e t h))
    | inr error ↦ rw error (done (otherwise e t h))
  ]

  -- Inside a transaction, a change whose error is dropped is made, or ends the transaction.
  pub dropped-write-Holds :
      {F : Error → Session A → Type 0} (f : ℕ → Tables A → Tables A) (s : Session A)
      → s.in_transaction ≡ true
      → Holds (λ x t. Writes f s t ⊎ (t.aborted ≡ true)) F (dropped (write f s))
  unfolding write
  dropped-write-Holds f s inside = elim (Bool-cases (attempt s).0) [
    | inl runs ↦
        rw (runs, write) (done (inl (rw (attempt-tables s, attempt-now s) refl, attempt-now s)))
    | inr fails ↦ rw (fails, write) (done (inr (attempt-aborted s inside fails)))
  ]

  -- Nothing more is done once a transaction has ended.
  pub aborted_write-Holds :
      {F : Error → Session A → Type 0} (f : ℕ → Tables A → Tables A) (s : Session A)
      → s.aborted ≡ true
      → ((e : Error) (t : Session A) → F e t)
      → Holds (λ x t. ⊥) F (write f s)
  unfolding write
  aborted_write-Holds f s aborted otherwise =
      rw (aborted-attempt s aborted, write) (failed (otherwise _ _))

  pub aborted_write_unique-Holds :
      {F : Error → Session A → Type 0} (violated : Tables A → Option String)
      (f : ℕ → Tables A → Tables A) (s : Session A)
      → s.aborted ≡ true
      → ((e : Error) (t : Session A) → F e t)
      → Holds (λ x t. ⊥) F (write_unique violated f s)
  unfolding write_unique
  aborted_write_unique-Holds violated f s aborted otherwise =
      rw (aborted-attempt s aborted, write_unique) (failed (otherwise _ _))
