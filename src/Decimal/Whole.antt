-- ===== src/Decimal/Whole.antt =====
-- Whole numbers satisfy the laws of `Decimals`: the amounts of the tests and examples.
use Prim.Native.String.{String}
use mogtrade_engine.Base.{
  ℕ, zero, suc, ◌+◌, ◌*◌, ◌/◌, ◌≡◌, refl, ◌↔◌, ap, Bool, true, false, not, ◌||◌, arith,
  if◌then◌else◌,
}
use mogtrade_engine.Base.Int.{
  ℤ, pos, negsuc, pos_part, neg_part, sub_ℕ, +ℤ_parts, ◌+ℤ◌, ◌-ℤ◌, ◌*ℤ◌, ltb_ℤ, int_laws,
}
use mogtrade_engine.Decimal.{Decimals}

-- A printed form: two marks for each unit, and one more behind a negative number.
marks : ℕ → String
marks zero = ""
marks (suc n) = String.◌∷◌ "1" (marks n)

abbrev tally : ℤ → ℕ
tally (pos n) = 2 * n
tally (negsuc n) = 2 * n + 1

unfoldable pub print : ℤ → String
unfolding marks
print a = marks (tally a)

marks-injective : (m n : ℕ) → marks m ≡ marks n → m ≡ n
unfolding marks
marks-injective zero zero h = refl
marks-injective zero (suc n) h = cc
marks-injective (suc m) zero h = cc
marks-injective (suc m) (suc n) h = ap suc (marks-injective m n (cc))

tally-injective : (a b : ℤ) → tally a ≡ tally b → a ≡ b
tally-injective a b h = ground arith

pub print-injective : (a b : ℤ) → print a ≡ print b → a ≡ b
print-injective a b h = tally-injective a b (marks-injective _ _ (unfold print in h))

pub +ℤ_comm : (a b : ℤ) → a +ℤ b ≡ b +ℤ a
+ℤ_comm a b = omega int_laws

pub +ℤ_assoc : (a b c : ℤ) → a +ℤ b +ℤ c ≡ a +ℤ (b +ℤ c)
+ℤ_assoc a b c = omega int_laws

pub +ℤ_zero : (a : ℤ) → a +ℤ pos 0 ≡ a
+ℤ_zero a = omega int_laws

pub -ℤ_+ℤ : (a b : ℤ) → a -ℤ b +ℤ b ≡ a
-ℤ_+ℤ a b = omega int_laws

pub neg_+ℤ : (a : ℤ) → pos 0 -ℤ a +ℤ a ≡ pos 0
neg_+ℤ a = omega int_laws

pub ltb_ℤ_irrefl : (a : ℤ) → ltb_ℤ a a ≡ false
ltb_ℤ_irrefl a = ground arith

pub ltb_ℤ_trans : (a b c : ℤ) → ltb_ℤ a b ≡ true → ltb_ℤ b c ≡ true → ltb_ℤ a c ≡ true
ltb_ℤ_trans a b c h k = ground arith

pub ltb_ℤ_connected : (a b : ℤ) → ltb_ℤ a b ≡ false → ltb_ℤ b a ≡ false → a ≡ b
ltb_ℤ_connected a b h k = ground arith

pub ltb_ℤ-+ℤ : (a b c : ℤ) → ltb_ℤ (a +ℤ c) (b +ℤ c) ≡ ltb_ℤ a b
ltb_ℤ-+ℤ a b c = ground (arith, +ℤ_parts a c, +ℤ_parts b c)

unfoldable pub is_equal : ℤ → ℤ → Bool
is_equal a b = not (ltb_ℤ a b || ltb_ℤ b a)

pub is_equal_iff : (a b : ℤ) → (is_equal a b ≡ true) ↔ (a ≡ b)
unfolding is_equal
is_equal_iff a b = (λ h. ground arith, λ e. rw e (ground arith))

abbrev whole_abs : ℤ → ℤ
whole_abs a = pos (pos_part a + neg_part a)

-- Truncated towards zero; the program divides only to print.
abbrev whole_div : ℤ → ℤ → ℤ
whole_div a b =
    let q = (pos_part a + neg_part a) / (pos_part b + neg_part b) in
    if ltb_ℤ a (pos 0) then sub_ℕ 0 q else pos q

abbrev pub whole : Decimals
whole = record {
  Amount = ℤ;
  zero_amount = pos 0;
  add = ◌+ℤ◌;
  sub = ◌-ℤ◌;
  mul = ◌*ℤ◌;
  div = whole_div;
  neg = λ a. pos 0 -ℤ a;
  abs = whole_abs;
  min = λ a b. if ltb_ℤ b a then b else a;
  less_than = ltb_ℤ;
  greater_than = λ a b. ltb_ℤ b a;
  equal = is_equal;
  is_zero = λ a. is_equal a (pos 0);
  string = print;
  add_comm = +ℤ_comm;
  add_assoc = +ℤ_assoc;
  add_zero = +ℤ_zero;
  neg_add = neg_+ℤ;
  sub_add = -ℤ_+ℤ;
  lt_irrefl = ltb_ℤ_irrefl;
  lt_trans = ltb_ℤ_trans;
  lt_connected = ltb_ℤ_connected;
  lt_add = ltb_ℤ-+ℤ;
  greater_than_lem = λ a b. refl;
  equal_iff = is_equal_iff;
  is_zero_iff = λ a. is_equal_iff a (pos 0);
  min_lem = λ a b. refl;
  string-injective = print-injective;
}
