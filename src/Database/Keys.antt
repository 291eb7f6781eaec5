-- ===== src/Database/Keys.antt =====
-- Reading the keys of a table in pages is reading pages of the list of its keys.
use mogtrade_engine.Base.{
  ◌≡◌, ◌≢◌, ◌∙◌, refl, ap, ℕ, suc, zero, Bool, String, List, [], ◌∷◌, map, take, All, arith,
}
use mogtrade_engine.Database.TextOrder.{TextOrder}
use mogtrade_engine.Database.Table.{where_holds, placed, sorted_by}
use mogtrade_engine.Database.Choosing.{Distinct}
use mogtrade_engine.Database.Paging.{in_order, is_after, select_page}

abbrev pub itself : String → String
itself id = id

module _ {R : Type 0} (key : R → String) where
  map-where :
      (p : String → Bool) (rows : List R)
      → map key (where_holds (λ x. p (key x)) rows) ≡ where_holds p (map key rows)
  unfolding where_holds
  map-where p [] = refl
  map-where p (x ∷ xs) = ground (arith, map-where p xs)

  map-take : (n : ℕ) (rows : List R) → map key (take n rows) ≡ take n (map key rows)
  map-take zero rows = refl
  map-take (suc n) [] = refl
  map-take (suc n) (x ∷ xs) = ap (λ ids. key x ∷ ids) (map-take n xs)

  map-All : (P : String → Type 0) (rows : List R) → All (λ x. P (key x)) rows → All P (map key rows)
  map-All P [] h = tt
  map-All P (x ∷ xs) h = (h.0, map-All P xs h.1)

  pub map-Distinct : (rows : List R) → Distinct key rows → Distinct itself (map key rows)
  map-Distinct [] h = h
  map-Distinct (x ∷ xs) h = (map-All (λ id. key x ≢ id) xs h.0, map-Distinct xs h.1)

  module _ (o : TextOrder) where
    map-placed :
        (x : R) (rows : List R)
        → map key (placed (in_order o key) x rows)
          ≡ placed (in_order o itself) (key x) (map key rows)
    unfolding placed
    map-placed x [] = refl
    map-placed x (y ∷ ys) = ground (arith, map-placed x ys)

    map-sorted :
        (rows : List R)
        → map key (sorted_by (in_order o key) rows) ≡ sorted_by (in_order o itself) (map key rows)
    unfolding sorted_by
    map-sorted [] = refl
    map-sorted (x ∷ xs) =
        map-placed x (sorted_by (in_order o key) xs)
        ∙ ap (placed (in_order o itself) (key x)) (map-sorted xs)

    pub map-select_page :
        (cursor : String) (limit : ℕ) (rows : List R)
        → map key (select_page o key cursor limit rows)
          ≡ select_page o itself cursor limit (map key rows)
    unfolding select_page
    map-select_page cursor limit rows =
        map-take limit (sorted_by (in_order o key) (where_holds (is_after o key cursor) rows))
        ∙ ap (take limit) (
            map-sorted (where_holds (is_after o key cursor) rows)
            ∙ ap (sorted_by (in_order o itself)) (map-where (o.before cursor) rows))
