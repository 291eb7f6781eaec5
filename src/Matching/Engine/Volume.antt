-- ===== src/Matching/Engine/Volume.antt =====
-- The volume of a side of the book, level by level.
use mogtrade_engine.Base.{
  ◌≡◌, ◌∙◌, sym, ap, some, inl, inr, String, [], ◌∷◌, arith, Bool-cases, string_eq, ◌is◌,
}
use mogtrade_engine.Base.Dict.{Dict, lookup, insert, erase}
use mogtrade_engine.Decimal.{Decimals}
use mogtrade_engine.Matching.Book.{Level}

module _ (d : Decimals) where
  open d use {Amount, zero_amount, add, add_comm, add_assoc}

  -- The volumes of a side's levels, added up.
  unfoldable pub volume : Dict String (Level Amount) → Amount
  volume [] = zero_amount
  volume ((k, l) ∷ levels) = add l.total_volume (volume levels)

  pub swap_add : (a b c : Amount) → add (add a b) c ≡ add (add a c) b
  swap_add a b c = add_assoc a b c ∙ ap (add a) (add_comm b c) ∙ sym (add_assoc a c b)

  pub volume-insert :
      (k : String) (l new : Level Amount) (s : Dict String (Level Amount))
      → lookup k s ≡ some l
      → add (volume (insert k new s)) l.total_volume ≡ add (volume s) new.total_volume
  unfolding volume insert lookup
  volume-insert k l new [] h = absurd (ground arith)
  volume-insert k l new ((j, m) ∷ s) h = elim (Bool-cases (j is k)) [
    | inl eq ↦
        let same : m ≡ l = ground arith in
        rw eq (
          rw same (
            ap (λ x. add x l.total_volume) (add_comm new.total_volume (volume s))
            ∙ swap_add (volume s) new.total_volume l.total_volume
            ∙ ap (λ x. add x new.total_volume) (add_comm (volume s) l.total_volume)))
    | inr ne ↦ rw ne (
        add_assoc _ _ _
        ∙ ap (add m.total_volume) (volume-insert k l new s (ground arith))
        ∙ sym (add_assoc _ _ _))
  ]

  pub volume-erase :
      (k : String) (l : Level Amount) (s : Dict String (Level Amount))
      → lookup k s ≡ some l
      → add (volume (erase k s)) l.total_volume ≡ volume s
  unfolding volume erase lookup
  volume-erase k l [] h = absurd (ground arith)
  volume-erase k l ((j, m) ∷ s) h = elim (Bool-cases (j is k)) [
    | inl eq ↦
        let same : m ≡ l = ground arith in rw eq (rw same (add_comm (volume s) l.total_volume))
    | inr ne ↦ rw ne (add_assoc _ _ _ ∙ ap (add m.total_volume) (volume-erase k l s (ground arith)))
  ]
