-- ===== src/Database/Paging.antt =====
-- Reading a table in pages: `where id > $1 order by id limit $2`, with the last id of a page as the
-- cursor of the next. A page and the rows after its last are all the rows after the cursor.
use mogtrade_engine.Base.{
  ◌≤◌, length, ◌≡◌, ◌≢◌, ◌∙◌, refl, sym, ap, ℕ, suc, zero, Bool, true, false, inl, inr, String,
  List, [], ◌∷◌, ◌++◌, take, All, arith, Bool-cases, if◌then◌else◌,
}
use mogtrade_engine.Database.TextOrder.{TextOrder}
use mogtrade_engine.Database.Choosing.{
  length-where, Distinct, last_of, All-where, where-where, where_unchanged, where-holding, last-All,
  take-All,
}
use mogtrade_engine.Database.Table.{where_holds, placed, sorted_by}

module _ {R : Type 0} (o : TextOrder) (key : R → String) where
  abbrev pub in_order : R → R → Bool
  in_order x y = o.before (key x) (key y)

  abbrev pub is_after : String → R → Bool
  is_after cursor x = o.before cursor (key x)

  -- select … where id > $1 order by id limit $2
  unfoldable pub select_page : String → ℕ → List R → List R
  select_page cursor limit rows =
      take limit (sorted_by in_order (where_holds (is_after cursor) rows))

  -- All rows after a cursor, in order.
  abbrev pub rows_after : String → List R → List R
  rows_after cursor rows = where_holds (is_after cursor) (sorted_by in_order rows)

  abbrev Above : R → List R → Type 0
  Above x ys = All (λ y. in_order x y ≡ true) ys

  abbrev Ascending : List R → Type 0
  Ascending [] = Unit
  Ascending (x ∷ xs) = Above x xs × Ascending xs

  Above-trans : (x y : R) (zs : List R) → in_order x y ≡ true → Above y zs → Above x zs
  Above-trans x y [] h k = k
  Above-trans x y (z ∷ zs) h k =
      (o.before_trans (key x) (key y) (key z) h k.0, Above-trans x y zs h k.1)

  placed-first : (x : R) (ys : List R) → Above x ys → placed in_order x ys ≡ x ∷ ys
  unfolding placed
  placed-first x [] h = refl
  placed-first x (y ∷ ys) h = ground (arith, h.0)

  placed-All :
      (P : R → Type 0) (x : R) (ys : List R) → P x → All P ys → All P (placed in_order x ys)
  unfolding placed
  placed-All P x [] h k = (h, k)
  placed-All P x (y ∷ ys) h k = elim (Bool-cases (in_order x y)) [
    | inl first ↦ rw first (h, k)
    | inr later ↦ rw later (k.0, placed-All P x ys h k.1)
  ]

  sorted-All : (P : R → Type 0) (xs : List R) → All P xs → All P (sorted_by in_order xs)
  unfolding sorted_by
  sorted-All P [] h = h
  sorted-All P (x ∷ xs) h = placed-All P x (sorted_by in_order xs) h.0 (sorted-All P xs h.1)

  placed-Ascending :
      (x : R) (ys : List R)
      → All (λ y. key x ≢ key y) ys
      → Ascending ys
      → Ascending (placed in_order x ys)
  unfolding placed
  placed-Ascending x [] h k = (tt, tt)
  placed-Ascending x (y ∷ ys) h k = elim (Bool-cases (in_order x y)) [
    | inl first ↦ rw first ((first, Above-trans x y ys first k.0), k)
    | inr later ↦ elim (Bool-cases (in_order y x)) [
      | inl turned ↦
          rw later
            (placed-All (λ z. in_order y z ≡ true) x ys turned k.0, placed-Ascending x ys h.1 k.1)
      | inr same ↦ absurd (h.0 (o.before_connected (key x) (key y) later same))
    ]
  ]

  pub sorted-Ascending : (xs : List R) → Distinct key xs → Ascending (sorted_by in_order xs)
  unfolding sorted_by
  sorted-Ascending [] h = h
  sorted-Ascending (x ∷ xs) h =
      placed-Ascending x (sorted_by in_order xs) (sorted-All (λ y. key x ≢ key y) xs h.0)
        (sorted-Ascending xs h.1)

  Ascending-where : (p : R → Bool) (xs : List R) → Ascending xs → Ascending (where_holds p xs)
  unfolding where_holds
  Ascending-where p [] h = h
  Ascending-where p (x ∷ xs) h = elim (Bool-cases (p x)) [
    | inl here ↦ rw here (All-where (λ y. in_order x y ≡ true) p xs h.0, Ascending-where p xs h.1)
    | inr out ↦ rw out (Ascending-where p xs h.1)
  ]

  where-placed :
      (p : R → Bool) (x : R) (ys : List R)
      → Ascending ys
      → where_holds p (placed in_order x ys)
        ≡ (if p x then placed in_order x (where_holds p ys) else where_holds p ys)
  unfolding where_holds placed
  where-placed p x [] h = ground arith
  where-placed p x (y ∷ ys) h = elim (Bool-cases (in_order x y)) [
    | inr later ↦ ground (arith, where-placed p x ys h.1)
    | inl first ↦
        let above : Above x (where_holds p (y ∷ ys)) =
          All-where (λ z. in_order x z ≡ true) p (y ∷ ys) (first, Above-trans x y ys first h.0) in
        ground (arith, placed-first x (where_holds p (y ∷ ys)) above)
  ]

  -- Choosing rows and putting them in order is putting them in order and choosing.
  sorted-where :
      (p : R → Bool) (xs : List R)
      → Distinct key xs
      → sorted_by in_order (where_holds p xs) ≡ where_holds p (sorted_by in_order xs)
  unfolding where_holds sorted_by
  sorted-where p [] h = refl
  sorted-where p (x ∷ xs) h =
      let rest = sorted-where p xs h.1 in
      ground (arith, rest, where-placed p x (sorted_by in_order xs) (sorted-Ascending xs h.1))

  pub select_page-rows_after :
      (cursor : String) (limit : ℕ) (rows : List R)
      → Distinct key rows
      → select_page cursor limit rows ≡ take limit (rows_after cursor rows)
  unfolding select_page
  select_page-rows_after cursor limit rows h =
      ap (take limit) (sorted-where (is_after cursor) rows h)

  not_before : (x y : R) → in_order x y ≡ true → in_order y x ≡ false
  not_before x y h = elim (Bool-cases (in_order y x)) [
    | inr other ↦ other
    | inl turned ↦
        absurd
          (ground (arith, o.before_irrefl (key x), o.before_trans (key x) (key y) (key x) h turned))
  ]

  past_last :
      (n : ℕ) (x : R) (xs : List R)
      → Ascending (x ∷ xs)
      → take n xs ++ where_holds (is_after (key (last_of x (take n xs)))) (x ∷ xs) ≡ xs
  unfolding last_of where_holds
  past_last zero x xs h = rw (o.before_irrefl (key x)) (where_unchanged (is_after (key x)) xs h.0)
  past_last (suc n) x [] h = rw (o.before_irrefl (key x)) refl
  past_last (suc n) x (y ∷ ys) h =
      let last = last_of y (take n ys) in
      let above : in_order x last ≡ true =
        last-All (λ z. in_order x z ≡ true) y (take n ys) h.0.0
          (take-All (λ z. in_order x z ≡ true) n ys h.0.1) in
      rw (not_before x last above) (ap (λ z. y ∷ z) (past_last n y ys h.1))

  -- A page that begins with `x` and the rows after its last one.
  split_page :
      (p : R → Bool) (n : ℕ) (x : R) (xs sorted whole : List R)
      → Ascending whole
      → All (λ y. p y ≡ true) whole
      → whole ≡ where_holds p sorted
      → ((y : R) → p y ≡ true → (z : R) → in_order y z ≡ true → p z ≡ true)
      → take (suc n) whole ≡ x ∷ xs
      → whole ≡ x ∷ (xs ++ where_holds (is_after (key (last_of x xs))) sorted)
  split_page p n x xs sorted [] up holds e up_closed page = absurd (ground arith)
  split_page p n x xs sorted (z ∷ zs) up holds e up_closed page =
      let first : z ≡ x = ground arith in
      let others : take n zs ≡ xs = ground arith in
      let last = last_of z (take n zs) in
      let in_last : p last ≡ true =
        last-All (λ y. p y ≡ true) z (take n zs) holds.0
          (take-All (λ y. p y ≡ true) n zs holds.1) in
      let tail : where_holds (is_after (key last)) (z ∷ zs)
          ≡ where_holds (is_after (key last)) sorted =
        ap (where_holds (is_after (key last))) e
        ∙ where-where p (is_after (key last)) sorted (up_closed last in_last) in
      let whole : z ∷ zs ≡ z ∷ (take n zs ++ where_holds (is_after (key last)) sorted) =
        ap (λ w. z ∷ w) (sym (past_last n z zs up) ∙ ap (λ w. take n zs ++ w) tail) in
      rw (← first, ← others) whole

  pub rows_after-page :
      (cursor : String) (n : ℕ) (x : R) (xs rows : List R)
      → Distinct key rows
      → take (suc n) (rows_after cursor rows) ≡ x ∷ xs
      → rows_after cursor rows ≡ x ∷ (xs ++ rows_after (key (last_of x xs)) rows)
  rows_after-page cursor n x xs rows h page =
      let sorted = sorted_by in_order rows in
      split_page (is_after cursor) n x xs sorted (rows_after cursor rows)
        (Ascending-where (is_after cursor) sorted (sorted-Ascending rows h))
        (where-holding (is_after cursor) sorted) refl
        (λ y past z up. o.before_trans cursor (key y) (key z) past up) page

  length-placed : (x : R) (ys : List R) → length (placed in_order x ys) ≡ suc (length ys)
  unfolding placed
  length-placed x [] = refl
  length-placed x (y ∷ ys) = ground (arith, length-placed x ys)

  length-sorted : (xs : List R) → length (sorted_by in_order xs) ≡ length xs
  unfolding sorted_by
  length-sorted [] = refl
  length-sorted (x ∷ xs) = omega (arith, length-placed x (sorted_by in_order xs), length-sorted xs)

  pub length-rows_after :
      (cursor : String) (rows : List R) → length (rows_after cursor rows) ≤ length rows
  length-rows_after cursor rows =
      omega (arith, length-where (is_after cursor) (sorted_by in_order rows), length-sorted rows)

  -- Rows that are not after a cursor may be left out.
  pub rows_after-where :
      (cursor : String) (p : R → Bool) (rows : List R)
      → Distinct key rows
      → ((x : R) → is_after cursor x ≡ true → p x ≡ true)
      → rows_after cursor (where_holds p rows) ≡ rows_after cursor rows
  rows_after-where cursor p rows distinct h =
      ap (where_holds (is_after cursor)) (sorted-where p rows distinct)
      ∙ where-where p (is_after cursor) (sorted_by in_order rows) h

  Ascending-take : (n : ℕ) (xs : List R) → Ascending xs → Ascending (take n xs)
  Ascending-take zero xs h = tt
  Ascending-take (suc n) [] h = tt
  Ascending-take (suc n) (x ∷ xs) h =
      (take-All (λ y. in_order x y ≡ true) n xs h.0, Ascending-take n xs h.1)

  none_after :
      (x : R) (xs : List R)
      → Ascending (x ∷ xs)
      → All (λ y. in_order (last_of x xs) y ≡ false) (x ∷ xs)
  unfolding last_of
  none_after x [] h = (o.before_irrefl (key x), tt)
  none_after x (y ∷ ys) h = (
    not_before x (last_of y ys) (last-All (λ z. in_order x z ≡ true) y ys h.0.0 h.0.1),
    none_after y ys h.1,
  )

  -- No row of a page is after its last.
  pub page-none_after :
      (cursor : String) (n : ℕ) (x : R) (xs rows : List R)
      → Distinct key rows
      → take (suc n) (rows_after cursor rows) ≡ x ∷ xs
      → All (λ y. in_order (last_of x xs) y ≡ false) (x ∷ xs)
  page-none_after cursor n x xs rows distinct page = none_after x xs (
      rw page at (
        Ascending-take (suc n) (rows_after cursor rows) (
          Ascending-where (is_after cursor) (sorted_by in_order rows)
            (sorted-Ascending rows distinct))))
