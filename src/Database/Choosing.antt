-- ===== src/Database/Choosing.antt =====
-- Rows that a query chooses: keys, the last row of a batch, and what a choice keeps.
use mogtrade_engine.Base.{
  ◌≤◌, length, ◌≡◌, ◌≢◌, refl, ℕ, suc, zero, Bool, true, inl, inr, String, List, [], ◌∷◌, take, All,
  arith, Bool-cases,
}
use mogtrade_engine.Database.Table.{where_holds}

module _ {R : Type 0} where
  -- No two rows have the same key.
  abbrev pub Distinct : (R → String) → List R → Type 0
  Distinct key [] = Unit
  Distinct key (x ∷ xs) = All (λ y. key x ≢ key y) xs × Distinct key xs

  -- batch[len(batch)-1] of a batch that begins with `x`
  unfoldable pub last_of : R → List R → R
  last_of x [] = x
  last_of x (y ∷ ys) = last_of y ys

  pub All-where :
      (P : R → Type 0) (p : R → Bool) (xs : List R) → All P xs → All P (where_holds p xs)
  unfolding where_holds
  All-where P p [] h = h
  All-where P p (x ∷ xs) h = elim (Bool-cases (p x)) [
    | inl here ↦ rw here (h.0, All-where P p xs h.1)
    | inr out ↦ rw out (All-where P p xs h.1)
  ]

  pub Distinct-where :
      (key : R → String) (p : R → Bool) (xs : List R)
      → Distinct key xs
      → Distinct key (where_holds p xs)
  unfolding where_holds
  Distinct-where key p [] h = h
  Distinct-where key p (x ∷ xs) h = elim (Bool-cases (p x)) [
    | inl here ↦ rw here (All-where (λ y. key x ≢ key y) p xs h.0, Distinct-where key p xs h.1)
    | inr out ↦ rw out (Distinct-where key p xs h.1)
  ]

  pub where-where :
      (p q : R → Bool) (xs : List R)
      → ((x : R) → q x ≡ true → p x ≡ true)
      → where_holds q (where_holds p xs) ≡ where_holds q xs
  unfolding where_holds
  where-where p q [] h = refl
  where-where p q (x ∷ xs) h = ground (arith, h x, where-where p q xs h)

  pub where_unchanged :
      (p : R → Bool) (xs : List R) → All (λ x. p x ≡ true) xs → where_holds p xs ≡ xs
  unfolding where_holds
  where_unchanged p [] h = refl
  where_unchanged p (x ∷ xs) h = ground (arith, h.0, where_unchanged p xs h.1)

  pub where-holding : (p : R → Bool) (xs : List R) → All (λ x. p x ≡ true) (where_holds p xs)
  unfolding where_holds
  where-holding p [] = tt
  where-holding p (x ∷ xs) = elim (Bool-cases (p x)) [
    | inl here ↦ rw here (here, where-holding p xs)
    | inr out ↦ rw out (where-holding p xs)
  ]

  pub last-All : (P : R → Type 0) (x : R) (ys : List R) → P x → All P ys → P (last_of x ys)
  unfolding last_of
  last-All P x [] h k = h
  last-All P x (y ∷ ys) h k = last-All P y ys k.0 k.1

  pub take-All : (P : R → Type 0) (n : ℕ) (xs : List R) → All P xs → All P (take n xs)
  take-All P zero xs h = tt
  take-All P (suc n) [] h = tt
  take-All P (suc n) (x ∷ xs) h = (h.0, take-All P n xs h.1)

  pub length-where : (p : R → Bool) (xs : List R) → length (where_holds p xs) ≤ length xs
  unfolding where_holds
  length-where p [] = omega arith
  length-where p (x ∷ xs) = ground (arith, length-where p xs)
