-- ===== src/Database/Table.antt =====
-- A table as the list of its rows, in the order in which a query meets them: what select, update
-- and exists do.
use mogtrade_engine.Base.{
  ap, ◌⊎◌, ◌≡◌, refl, Bool, true, false, ◌||◌, Option, none, some, inl, inr, String, List, [], ◌∷◌,
  ◌++◌, arith, Bool-cases, if◌then◌else◌, string_eq, ◌is◌,
}

-- `a = b` on nullable columns: it is not true of a null.
unfoldable pub both : Option String → Option String → Bool
both (some a) (some b) = a is b
both (some a) none = false
both none b = false

module _ {A : Type 0} where
  -- select … where … limit 1
  unfoldable pub first_where : (A → Bool) → List A → Option A
  first_where p [] = none
  first_where p (x ∷ xs) = if p x then some x else first_where p xs

  -- select exists (…)
  unfoldable pub any_where : (A → Bool) → List A → Bool
  any_where p [] = false
  any_where p (x ∷ xs) = p x || any_where p xs

  -- update … set … where …
  unfoldable pub update_where : (A → Bool) → (A → A) → List A → List A
  update_where p f [] = []
  update_where p f (x ∷ xs) = (if p x then f x else x) ∷ update_where p f xs

  -- select … where …
  unfoldable pub where_holds : (A → Bool) → List A → List A
  where_holds p [] = []
  where_holds p (x ∷ xs) = let rest = where_holds p xs in if p x then x ∷ rest else rest

  unfoldable pub placed : (A → A → Bool) → A → List A → List A
  placed first x [] = x ∷ []
  placed first x (y ∷ ys) =
      let rest = placed first x ys in if first x y then x ∷ y ∷ ys else y ∷ rest

  -- … order by …
  unfoldable pub sorted_by : (A → A → Bool) → List A → List A
  sorted_by first [] = []
  sorted_by first (x ∷ xs) = placed first x (sorted_by first xs)

  pub any_where-none :
      (p : A → Bool) (xs : List A) → first_where p xs ≡ none → any_where p xs ≡ false
  unfolding first_where any_where
  any_where-none p [] h = refl
  any_where-none p (x ∷ xs) h = ground (arith, any_where-none p xs)

  pub first_where-holds :
      (p : A → Bool) (xs : List A) (x : A) → first_where p xs ≡ some x → p x ≡ true
  unfolding first_where
  first_where-holds p [] x h = absurd (ground arith)
  first_where-holds p (y ∷ ys) x h = ground (arith, first_where-holds p ys x)

  -- A row that an update changes is met where it was, changed; the rows that it does not pick
  -- stay what they were.
  pub first_where-update :
      (p : A → Bool) (f : A → A) (xs : List A) (x : A)
      → ((y : A) → p y ≡ true → p (f y) ≡ true)
      → first_where p xs ≡ some x
      → first_where p (update_where p f xs) ≡ some (f x)
  unfolding first_where update_where
  first_where-update p f [] x keep h = absurd (ground arith)
  first_where-update p f (y ∷ ys) x keep h =
      ground (arith, keep y, first_where-update p f ys x keep)

  pub any_where-last :
      (p : A → Bool) (xs : List A) (x : A) → any_where p (xs ++ x ∷ []) ≡ (any_where p xs || p x)
  unfolding any_where
  any_where-last p [] x = ground arith
  any_where-last p (y ∷ ys) x = ground (arith, any_where-last p ys x)

  -- A row that is met first and that an update does not pick stays first, if the update keeps
  -- what the query looks for.
  pub first_where-kept :
      (p q : A → Bool) (f : A → A) (xs : List A) (x : A)
      → ((y : A) → p (f y) ≡ p y)
      → first_where p xs ≡ some x
      → q x ≡ false
      → first_where p (update_where q f xs) ≡ some x
  unfolding first_where update_where
  first_where-kept p q f [] x keep h other = absurd (ground arith)
  first_where-kept p q f (y ∷ ys) x keep h other = elim (Bool-cases (p y)) [
    | inl here ↦ let same : y ≡ x = ground arith in rw same (ground (arith, rw same at here))
    | inr there ↦
        let rest = first_where-kept p q f ys x keep (ground arith) other in
        elim (Bool-cases (q y)) [
          | inl picked ↦ rw (picked, keep y, there) rest
          | inr left ↦ rw (left, there) rest
        ]
  ]

  pub first_where-none :
      (p : A → Bool) (xs : List A) → any_where p xs ≡ false → first_where p xs ≡ none
  unfolding first_where any_where
  first_where-none p [] h = refl
  first_where-none p (x ∷ xs) h = ground (arith, first_where-none p xs)

  -- A row that is new is the one found.
  pub first_where-last :
      (p : A → Bool) (xs : List A) (x : A)
      → any_where p xs ≡ false
      → p x ≡ true
      → first_where p (xs ++ x ∷ []) ≡ some x
  unfolding first_where any_where
  first_where-last p [] x new holds = ground arith
  first_where-last p (y ∷ ys) x new holds = ground (arith, first_where-last p ys x)

  -- Where an update keeps what a query looks for, the query finds the same row, changed or not.
  pub first_where-either :
      (p q : A → Bool) (f : A → A) (xs : List A) (x : A)
      → ((y : A) → p (f y) ≡ p y)
      → first_where p xs ≡ some x
      → (first_where p (update_where q f xs) ≡ some x)
        ⊎ (first_where p (update_where q f xs) ≡ some (f x))
  unfolding first_where update_where
  first_where-either p q f [] x keep h = absurd (ground arith)
  first_where-either p q f (y ∷ ys) x keep h =
      ground (arith, keep y, first_where-either p q f ys x keep)

  -- A row that is found and that an update picks is found changed.
  pub first_where-picked :
      (p q : A → Bool) (f : A → A) (xs : List A) (x : A)
      → ((y : A) → p (f y) ≡ p y)
      → first_where p xs ≡ some x
      → q x ≡ true
      → first_where p (update_where q f xs) ≡ some (f x)
  unfolding first_where update_where
  first_where-picked p q f [] x keep h picked = absurd (ground arith)
  first_where-picked p q f (y ∷ ys) x keep h picked = elim (Bool-cases (p y)) [
    | inl here ↦ let same : y ≡ x = ground arith in ground (arith, keep x, ap q same, ap p same)
    | inr there ↦ ground (arith, keep y, first_where-picked p q f ys x keep)
  ]
