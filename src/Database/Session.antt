-- ===== src/Database/Session.antt =====
-- A session with the database: the tables, the instant now() of the statement, and the faults
-- that the server or the connection raises, one entry for each statement, taken in turn. Inside a
-- transaction a failed statement makes every later one fail, until the transaction ends.
-- An error of a service is one of the `Error`s, too: what errors.Is tells apart.
pub mod Rules
pub mod Health
pub mod Modes
use mogtrade_engine.Base.{
  ◌⊎◌, inl, inr, ⊤, ℕ, ◌≡◌, refl, Bool, true, false, Option, none, some, String, List, [], ◌∷◌,
  if◌then◌else◌, arith, Bool-cases,
}
use mogtrade_engine.Database.Enums.{OrderStatus, TransactionStatus}
use mogtrade_engine.Database.Rows.{Tables}
use mogtrade_engine.Database.Table.{any_where}

pub data Error : Type 0 where
  no_rows : Error
  unique_violation : String → Error
  database_failed : Error
  nil_dereference : Error
  division_by_zero : Error
  not_json : Error
  order_not_found : Error
  duplicate_order : Error
  execution_not_found : Error
  duplicate_execution : Error
  invalid_order_transition : OrderStatus → OrderStatus → Error
  unsupported_order_type : Error
  wallet_already_exists : Error
  duplicate_idempotency_key : Error
  no_wallet_transaction : Error
  invalid_transaction_transition : TransactionStatus → TransactionStatus → Error
  wallet_not_found : Error
  order_rejected : String → Error
  kyc_not_found : Error
  kyc_already_exists : Error
  invalid_risk_profile : Error
  invalid_kyc_status : Error
  empty_rejection_reason : Error
  empty_user_id : Error
  account_not_found : Error
  invalid_credentials : Error
  account_already_exists : Error
  refresh_token_unusable : Error
  user_not_found : Error
  refresh_token_not_found : Error
  verification_not_found : Error
  other_error : String → Error

-- errors.Is(err, sql.ErrNoRows)
abbrev pub is_no_rows : Error → Bool
is_no_rows no_rows = true
is_no_rows e = false

abbrev pub is_panic : Error → Bool
is_panic nil_dereference = true
is_panic division_by_zero = true
is_panic e = false

pub data Result (X : Type 0) : Type 0 where
  ok : X → Result X
  err : Error → Result X

pub Result-cases :
    {X : Type 0} (r : Result X) → ((x : X) × (r ≡ ok x)) ⊎ ((e : Error) × (r ≡ err e))
Result-cases (ok x) = inl (x, refl)
Result-cases (err e) = inr (e, refl)

pub record Session (A : Type 0) : Type 0 where
  pub tables : Tables A
  pub now : ℕ
  pub faults : List Bool
  pub in_transaction : Bool
  pub aborted : Bool

abbrev pub Query : Type 0 → Type 0 → Type 0
Query A X = Session A → Result X × Session A

module _ {A : Type 0} where
  -- Whether the next statement is carried out, and the session after it is tried.
  unfoldable pub attempt : Session A → Bool × Session A
  attempt s = if s.aborted then (false, s) else elim s.faults [
    | [] ↦ (true, s)
    | fault ∷ faults ↦
        if fault
        then (false, record s { faults = faults; aborted = s.in_transaction })
        else (true, record s { faults = faults })
  ]

  -- A statement that only reads.
  unfoldable pub read : {X : Type 0} → (Tables A → X) → Query A X
  read f s =
      let (runs, t) = attempt s in if runs then (ok (f t.tables), t) else (err database_failed, t)

  -- The same, for a statement that looks at the clock.
  unfoldable pub read_now : {X : Type 0} → (ℕ → Tables A → X) → Query A X
  read_now f s =
      let (runs, t) = attempt s in
      if runs then (ok (f t.now t.tables), t) else (err database_failed, t)

  -- A statement that changes the tables.
  unfoldable pub write : (ℕ → Tables A → Tables A) → Query A ⊤
  write f s =
      let (runs, t) = attempt s in
      if runs then (ok tt, record t { tables = f t.now t.tables }) else (err database_failed, t)

  -- A statement that changes the tables unless it breaks a unique index.
  unfoldable pub write_unique : (Tables A → Option String) → (ℕ → Tables A → Tables A) → Query A ⊤
  write_unique violated f s =
      let (runs, t) = attempt s in
      if runs
      then elim (violated t.tables) [
        | none ↦ (ok tt, record t { tables = f t.now t.tables })
        | some index ↦ (err (unique_violation index), record t { aborted = t.in_transaction })
      ]
      else (err database_failed, t)

  module _ {X : Type 0} where
    abbrev pub pure : X → Query A X
    pure x s = (ok x, s)

    abbrev pub fail : Error → Query A X
    fail e s = (err e, s)

    abbrev pub or_fail : Option X → Error → Query A X
    or_fail none e = fail e
    or_fail (some x) _ = pure x

  -- QueryRow(…).Scan(…)
  abbrev pub one : {X : Type 0} → Result (Option X) × Session A → Result X × Session A
  one (ok none, s) = (err no_rows, s)
  one (ok (some x), s) = (ok x, s)
  one (err e, s) = (err e, s)

  abbrev pub handled : {X : Type 0} → (Error → Error) → Result X × Session A → Result X × Session A
  handled f (ok x, s) = (ok x, s)
  handled f (err e, s) = (err (f e), s)

  -- The handling of the error of a call.
  abbrev pub on_error : {X : Type 0} → (Error → Error) → Query A X → Query A X
  on_error f m s = handled f (m s)

  -- The error of a call is dropped: the result is then the zero value. A panic goes on.
  abbrev pub dropped : {X : Type 0} → Result X × Session A → Result (Option X) × Session A
  dropped (ok x, t) = (ok (some x), t)
  dropped (err e, t) = if is_panic e then (err e, t) else (ok none, t)

  abbrev pub attempted : {X : Type 0} → Query A X → Query A (Option X)
  attempted m s = dropped (m s)

  abbrev pub after : {X Y : Type 0} → Result X × Session A → (X → Query A Y) → Result Y × Session A
  after (ok x, s) k = k x s
  after (err e, s) k = (err e, s)

  infixl 5 ◌>>=◌ ◌>>◌
  abbrev pub ◌>>=◌ : {X Y : Type 0} → Query A X → (X → Query A Y) → Query A Y
  ◌>>=◌ m k s = after (m s) k

  abbrev pub ◌>>◌ : {X Y : Type 0} → Query A X → Query A Y → Query A Y
  m >> k = m >>= λ _. k

  -- Trying a statement changes no table and no clock.
  pub attempt-tables : (s : Session A) → (attempt s).1.tables ≡ s.tables
  unfolding attempt
  attempt-tables s = ground arith

  pub attempt-now : (s : Session A) → (attempt s).1.now ≡ s.now
  unfolding attempt
  attempt-now s = ground arith

  pub attempt-in_transaction : (s : Session A) → (attempt s).1.in_transaction ≡ s.in_transaction
  unfolding attempt
  attempt-in_transaction s = ground arith

  -- A statement that fails inside a transaction ends it.
  pub attempt-aborted :
      (s : Session A)
      → s.in_transaction ≡ true
      → (attempt s).0 ≡ false
      → (attempt s).1.aborted ≡ true
  unfolding attempt
  attempt-aborted s inside fails = ground arith

  pub aborted-attempt : (s : Session A) → s.aborted ≡ true → (attempt s).0 ≡ false
  unfolding attempt
  aborted-attempt s aborted = ground arith

  -- Some statement of the session is not carried out.
  abbrev pub Faulty : Session A → Type 0
  Faulty s = (s.aborted ≡ true) ⊎ (any_where (λ fault. fault) s.faults ≡ true)

  pub attempt_fails-Faulty : (s : Session A) → (attempt s).0 ≡ false → Faulty s
  unfolding attempt any_where
  attempt_fails-Faulty s fails = elim (Bool-cases s.aborted) [
    | inl aborted ↦ inl aborted
    | inr going_on ↦ inr (ground arith)
  ]

  attempt_runs-aborted : (s : Session A) → (attempt s).0 ≡ true → (attempt s).1.aborted ≡ s.aborted
  unfolding attempt
  attempt_runs-aborted s runs = ground arith

  attempt-faults :
      (s : Session A)
      → any_where (λ fault. fault) (attempt s).1.faults ≡ true
      → any_where (λ fault. fault) s.faults ≡ true
  unfolding attempt any_where
  attempt-faults s later = ground arith

  pub attempt-Faulty : (s : Session A) → Faulty (attempt s).1 → Faulty s
  attempt-Faulty s later = elim (Bool-cases (attempt s).0) [
    | inr fails ↦ attempt_fails-Faulty s fails
    | inl runs ↦ elim later [
      | inl aborted ↦ inl (rw (← attempt_runs-aborted s runs) aborted)
      | inr fault ↦ inr (attempt-faults s fault)
    ]
  ]
