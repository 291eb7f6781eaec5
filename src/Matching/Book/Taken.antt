-- ===== src/Matching/Book/Taken.antt =====
-- What RemoveOrder's walk over a queue takes out of it.
use mogtrade_engine.Base.{
  ◌≡◌, ap, some, false, inl, inr, String, List, [], ◌∷◌, ◌++◌, All, All-append, All-parts, arith,
  Option-cases, Bool-cases, string_eq, ◌is◌,
}
use mogtrade_engine.Decimal.{Decimals}
use mogtrade_engine.Decimal.Laws.{add_sub}
use mogtrade_engine.Matching.Book.{OrderEntry, take_order}
use mogtrade_engine.Matching.Book.Valid.{sum_of, IsPositive}
use mogtrade_engine.Matching.Book.Add.{sum_of-append}

module _ (d : Decimals) where
  open d use {
    Amount, zero_amount, add, sub, less_than, equal, equal_iff, string, string-injective, add_comm,
    add_assoc, add_zero,
  }

  -- `e` is the first entry of `es` with the id, and `rest` is the others in their order.
  pub record Taken (id : String) (es : List (OrderEntry Amount)) (e : OrderEntry Amount)
      (rest : List (OrderEntry Amount)) : Type 0 where
    pub before : List (OrderEntry Amount)
    pub after : List (OrderEntry Amount)
    pub whole : es ≡ before ++ e ∷ after
    pub left : rest ≡ before ++ after
    pub named : e.order_id ≡ id
    pub earlier : All (λ x. (x.order_id is id) ≡ false) before

  pub take_order-Taken :
      (id : String) (es : List (OrderEntry Amount)) (e : OrderEntry Amount)
      (rest : List (OrderEntry Amount))
      → take_order d id es ≡ some (e, rest)
      → Taken id es e rest
  unfolding take_order
  take_order-Taken id [] e rest h = absurd (ground arith)
  take_order-Taken id (x ∷ xs) e rest h = elim (Bool-cases (x.order_id is id)) [
    | inl eq ↦ record {
      before = [];
      after = xs;
      whole = ground arith;
      left = ground arith;
      named = ground (arith, string_eq.beq_iff x.order_id id);
      earlier = tt;
    }
    | inr ne ↦ elim (Option-cases (take_order d id xs)) [
      | inl nothing ↦ absurd (ground arith)
      | inr (r, found) ↦
          let t = take_order-Taken id xs r.0 r.1 found in
          record {
            before = x ∷ t.before;
            after = t.after;
            whole = ground (arith, t.whole);
            left = ground (arith, t.left);
            named = ground (arith, t.named);
            earlier = (ne, t.earlier);
          }
    ]
  ]

  pub Taken-sum :
      (id : String) (es : List (OrderEntry Amount)) (e : OrderEntry Amount)
      (rest : List (OrderEntry Amount))
      → Taken id es e rest
      → sub (sum_of d es) e.quantity ≡ sum_of d rest
  unfolding sum_of
  Taken-sum id es e rest t =
      let shuffled : sum_of d es ≡ add (sum_of d rest) e.quantity =
        rw
          (
            t.whole,
            t.left,
            sum_of-append d t.before (e ∷ t.after),
            sum_of-append d t.before t.after,
          )
          (rw add_assoc (ap (add (sum_of d t.before)) (add_comm e.quantity (sum_of d t.after)))) in
      rw shuffled (add_sub d (sum_of d rest) e.quantity)

  pub Taken-IsPositive :
      (id : String) (es : List (OrderEntry Amount)) (e : OrderEntry Amount)
      (rest : List (OrderEntry Amount))
      → Taken id es e rest
      → All (IsPositive d) es
      → All (IsPositive d) rest
  Taken-IsPositive id es e rest t h =
      let parts = All-parts (IsPositive d) t.before (e ∷ t.after) (rw t.whole at h) in
      rw t.left (All-append (IsPositive d) t.before t.after parts.0 parts.1.1)
