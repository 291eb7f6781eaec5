-- ===== src/Decimal/Laws.antt =====
-- Consequences of the laws of `Decimals`, in the forms that the order book needs.
use mogtrade_engine.Base.{◌≡◌, refl, sym, ◌∙◌, true, false, arith}
use mogtrade_engine.Decimal.{Decimals}

module _ (d : Decimals) where
  open d use {
    Amount, zero_amount, add, sub, min, less_than, is_zero, add_comm, add_assoc, add_zero, sub_add,
    lt_irrefl, lt_trans, lt_connected, lt_add, is_zero_iff, min_lem, greater_than, greater_than_lem,
  }

  pub lt_asym : (a b : Amount) → less_than a b ≡ true → less_than b a ≡ false
  lt_asym a b h = ground (arith, lt_trans a b a, lt_irrefl a)

  -- "b is at least a" composes.
  pub ge_trans :
      (a b c : Amount) → less_than b a ≡ false → less_than c b ≡ false → less_than c a ≡ false
  ge_trans a b c h k =
      ground (arith, lt_trans c a b, lt_connected a b, lt_connected b c, lt_asym a b)

  pub add-cancel : (a b c : Amount) → add a c ≡ add b c → a ≡ b
  add-cancel a b c h =
      lt_connected a b (sym (lt_add a b c) ∙ rw h (lt_irrefl (add b c)))
        (sym (lt_add b a c) ∙ rw h (lt_irrefl (add b c)))

  pub sub_self : (a : Amount) → sub a a ≡ zero_amount
  sub_self a =
      add-cancel (sub a a) zero_amount a
        (ground (arith, sub_add a a, add_comm zero_amount a, add_zero a))

  pub zero_add : (a : Amount) → add zero_amount a ≡ a
  zero_add a = add_comm zero_amount a ∙ add_zero a

  pub add_sub : (a b : Amount) → sub (add a b) b ≡ a
  add_sub a b = add-cancel (sub (add a b) b) a b (sub_add (add a b) b)

  -- a - b > 0 exactly when b < a.
  pub lt-sub : (a b : Amount) → less_than zero_amount (sub a b) ≡ less_than b a
  lt-sub a b = sym (lt_add zero_amount (sub a b) b) ∙ ground (arith, sub_add a b, zero_add b)

  pub min_le_left : (a b : Amount) → less_than a (min a b) ≡ false
  min_le_left a b = ground (arith, min_lem a b, lt_asym b a, lt_irrefl a)

  pub min_le_right : (a b : Amount) → less_than b (min a b) ≡ false
  min_le_right a b = ground (arith, min_lem a b, lt_irrefl b)

  pub is_zero-zero : is_zero zero_amount ≡ true
  is_zero-zero = (is_zero_iff zero_amount).1 refl

  module _ (a b : Amount) where
    pub gt_asym : greater_than a b ≡ true → greater_than b a ≡ false
    gt_asym h = ground (arith, greater_than_lem a b, greater_than_lem b a, lt_asym b a)

  pub gt_irrefl : (a : Amount) → greater_than a a ≡ false
  gt_irrefl a = greater_than_lem a a ∙ lt_irrefl a

  -- "b is at most a" composes.
  pub le_trans :
      (a b c : Amount)
      → greater_than b a ≡ false
      → greater_than c b ≡ false
      → greater_than c a ≡ false
  le_trans a b c h k =
      ground
        (arith, greater_than_lem b a, greater_than_lem c b, greater_than_lem c a, ge_trans c b a)
