-- ===== src/Decimal.antt =====
-- What the program relies on of github.com/shopspring/decimal, which is not in the repository:
-- exact numbers with addition, comparison and a printed form. A value of `Amount` is a number;
-- two representations of one number (1.0 and 1.00) are the same value, since every operation the
-- program calls, `String` included, treats them alike.
pub mod Laws
pub mod Whole
use mogtrade_engine.Base.{Bool, true, false, ◌≡◌, ◌↔◌, String, if◌then◌else◌}

pub record Decimals : Type 1 where
  pub Amount : Type 0
  pub zero_amount : Amount
  pub add : Amount → Amount → Amount
  pub sub : Amount → Amount → Amount
  pub mul : Amount → Amount → Amount
  pub div : Amount → Amount → Amount
  pub neg : Amount → Amount
  pub abs : Amount → Amount
  pub min : Amount → Amount → Amount
  pub less_than : Amount → Amount → Bool
  pub greater_than : Amount → Amount → Bool
  pub equal : Amount → Amount → Bool
  pub is_zero : Amount → Bool
  pub string : Amount → String
  -- exact addition and subtraction
  pub add_comm : (a b : Amount) → add a b ≡ add b a
  pub add_assoc : (a b c : Amount) → add (add a b) c ≡ add a (add b c)
  pub add_zero : (a : Amount) → add a zero_amount ≡ a
  pub neg_add : (a : Amount) → add (neg a) a ≡ zero_amount
  pub sub_add : (a b : Amount) → add (sub a b) b ≡ a
  -- comparison is a total order that addition respects
  pub lt_irrefl : (a : Amount) → less_than a a ≡ false
  pub lt_trans :
      (a b c : Amount) → less_than a b ≡ true → less_than b c ≡ true → less_than a c ≡ true
  pub lt_connected : (a b : Amount) → less_than a b ≡ false → less_than b a ≡ false → a ≡ b
  pub lt_add : (a b c : Amount) → less_than (add a c) (add b c) ≡ less_than a b
  pub greater_than_lem : (a b : Amount) → greater_than a b ≡ less_than b a
  pub equal_iff : (a b : Amount) → (equal a b ≡ true) ↔ (a ≡ b)
  pub is_zero_iff : (a : Amount) → (is_zero a ≡ true) ↔ (a ≡ zero_amount)
  pub min_lem : (a b : Amount) → min a b ≡ (if less_than b a then b else a)
  -- the printed form is canonical: trailing zeros are trimmed
  pub string-injective : (a b : Amount) → string a ≡ string b → a ≡ b

-- decimal.NullDecimal
pub record NullDecimal (A : Type 0) : Type 0 where
  pub decimal : A
  pub valid : Bool
