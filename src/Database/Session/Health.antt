-- ===== src/Database/Session/Health.antt =====
-- Whether every later statement will be carried out.
use mogtrade_engine.Base.{◌≡◌, ap, ◌&&◌, Bool, true, false, not, inl, inr, arith, Bool-cases}
use mogtrade_engine.Database.Enums.{wallet_type_eq}
use mogtrade_engine.Database.Rows.{Tables}
use mogtrade_engine.Database.Table.{any_where}
use mogtrade_engine.Database.Session.{Session, attempt, attempt-tables, read}
use mogtrade_engine.Database.Session.Rules.{Holds, done, failed}

-- No statement will fail.
unfoldable pub is_healthy : {A : Type 0} → Session A → Bool
is_healthy s = not s.aborted && not (any_where (λ fault. fault) s.faults)

attempt-is_healthy :
    {A : Type 0} (s : Session A) → (attempt s).0 ≡ true → is_healthy (attempt s).1 ≡ is_healthy s
unfolding attempt is_healthy any_where
attempt-is_healthy s runs = ground (arith, runs)

attempt-unhealthy : {A : Type 0} (s : Session A) → (attempt s).0 ≡ false → is_healthy s ≡ false
unfolding attempt is_healthy any_where
attempt-unhealthy s fails = ground (arith, fails)

-- What a statement that only reads answers, and whether the later ones will be carried out.
pub healthy_read :
    {A X : Type 0} (f : Tables A → X) (s : Session A)
    → Holds
        (λ x t. (x ≡ f s.tables) × (t.tables ≡ s.tables) × (is_healthy t ≡ is_healthy s))
        (λ e t. (t.tables ≡ s.tables) × (is_healthy s ≡ false))
        (read f s)
unfolding read
healthy_read f s = elim (Bool-cases (attempt s).0) [
  | inl runs ↦
      rw (runs, read) (done (ap f (attempt-tables s), attempt-tables s, attempt-is_healthy s runs))
  | inr fails ↦ rw (fails, read) (failed (attempt-tables s, attempt-unhealthy s fails))
]
