-- ===== src/Orders/Risk/Refusal.antt =====
-- ValidateOrder of services/orders/risk-engine.go gives the reason of the first check that refuses.
use mogtrade_engine.Base.{
  ◌≡◌, ◌⊎◌, refl, true, false, inl, inr, List, [], ◌∷◌, ◌++◌, All, arith, Bool-cases, string_eq,
}
use mogtrade_engine.Orders.Risk.{
  RiskCheckResult, OrderContext, RiskCheck, accepted_risk_check, validate_order,
}

module _ {A : Type 0} (o : OrderContext A) where
  abbrev pub Approves : RiskCheck A → Type 0
  Approves check = (check o).approved ≡ true

  -- The checks before the first that refuses, that check, and the others.
  pub record FirstRefusal (checks : List (RiskCheck A)) (r : RiskCheckResult) : Type 0 where
    pub before : List (RiskCheck A)
    pub check : RiskCheck A
    pub behind : List (RiskCheck A)
    pub split : checks ≡ before ++ check ∷ behind
    pub passed : All Approves before
    pub refuses : (check o).approved ≡ false
    pub reported : r ≡ check o

  -- ValidateOrder accepts when every check approves; else its result is that of the first check
  -- that does not.
  pub validate_order-first :
      (checks : List (RiskCheck A))
      → (All Approves checks × (validate_order o checks ≡ accepted_risk_check))
        ⊎ FirstRefusal checks (validate_order o checks)
  unfolding validate_order
  validate_order-first [] = inl (tt, refl)
  validate_order-first (check ∷ checks) = elim (Bool-cases (check o).approved) [
    | inr rejects ↦ inr (record {
      before = [];
      check = check;
      behind = checks;
      split = refl;
      passed = tt;
      refuses = rejects;
      reported = ground arith;
    })
    | inl passes ↦
        let same : validate_order o (check ∷ checks) ≡ validate_order o checks = ground arith in
        elim (validate_order-first checks) [
          | inl (all, accepted) ↦ rw same (inl ((passes, all), accepted))
          | inr first ↦ rw same (
              inr (record {
                before = check ∷ first.before;
                check = first.check;
                behind = first.behind;
                split = rw first.split refl;
                passed = (passes, first.passed);
                refuses = first.refuses;
                reported = first.reported;
              }))
        ]
  ]
