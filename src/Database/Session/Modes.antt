-- ===== src/Database/Session/Modes.antt =====
-- No statement begins or ends a transaction.
use mogtrade_engine.Base.{◌≡◌, ℕ, Bool, Option, some, none, String, arith}
use mogtrade_engine.Database.Rows.{Tables}
use mogtrade_engine.Database.Session.{
  Session, Query, Result, Error, ok, err, after, attempt-in_transaction, read, write, write_unique,
  or_fail,
}
use mogtrade_engine.Database.Session.Rules.{Holds, done, failed}

module _ {A : Type 0} where
  -- The session after a query is in a transaction if the one before is.
  abbrev pub Stays : {X : Type 0} → Bool → Result X × Session A → Type 0
  Stays b r = Holds (λ x t. t.in_transaction ≡ b) (λ e t. t.in_transaction ≡ b) r

  pub after-Stays :
      {X Y : Type 0} (b : Bool) (r : Result X × Session A) (k : X → Query A Y)
      → Stays b r
      → ((x : X) (t : Session A) → t.in_transaction ≡ b → Stays b (k x t))
      → Stays b (after r k)
  after-Stays b (ok x, t) k (done h) next = next x t h
  after-Stays b (err e, t) k (failed h) next = failed h

  mode_kept :
      {X : Type 0} (b : Bool) (r : Result X × Session A) → r.1.in_transaction ≡ b → Stays b r
  mode_kept b (ok x, t) h = done h
  mode_kept b (err e, t) h = failed h

  pub read-Stays :
      {X : Type 0} (f : Tables A → X) (b : Bool) (s : Session A)
      → s.in_transaction ≡ b
      → Stays b (read f s)
  unfolding read
  read-Stays f b s h = mode_kept b (read f s) (ground (arith, attempt-in_transaction s))

  pub write-Stays :
      (f : ℕ → Tables A → Tables A) (b : Bool) (s : Session A)
      → s.in_transaction ≡ b
      → Stays b (write f s)
  unfolding write
  write-Stays f b s h = mode_kept b (write f s) (ground (arith, attempt-in_transaction s))

  pub write_unique-Stays :
      (violated : Tables A → Option String) (f : ℕ → Tables A → Tables A) (b : Bool) (s : Session A)
      → s.in_transaction ≡ b
      → Stays b (write_unique violated f s)
  unfolding write_unique
  write_unique-Stays violated f b s h =
      mode_kept b (write_unique violated f s) (ground (arith, attempt-in_transaction s))

  pub or_fail-Stays :
      {X : Type 0} (o : Option X) (e : Error) (b : Bool) (s : Session A)
      → s.in_transaction ≡ b
      → Stays b (or_fail o e s)
  or_fail-Stays none e b s h = failed h
  or_fail-Stays (some x) e b s h = done h

  pub Holds-Stays :
      {X : Type 0} {Q : X → Session A → Type 0} {E : Error → Session A → Type 0} (b : Bool)
      (r : Result X × Session A)
      → Holds Q E r
      → Stays b r
      → Holds (λ x t. Q x t × (t.in_transaction ≡ b)) E r
  Holds-Stays b (ok x, t) (done h) (done stays) = done (h, stays)
  Holds-Stays b (err e, t) (failed h) stays = failed h
