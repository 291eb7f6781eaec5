-- ===== src/Base/Dict.antt =====
-- Go maps as association lists: a key is listed at most once where the map is built by `insert`.
use mathlib.Core.Path.{◌≡◌, refl, sym, subst₂}
use mathlib.Core.Logic.{◌≢◌, inl, inr}
use mathlib.Core.Logic.Or
use mathlib.Core.HLevel.{⊥_prop}
use mathlib.Core.Option.{Option, none, some}
use mathlib.Core.List.{List, [], ◌∷◌, ◌++◌, Mem, Perm, mem-cons, mem-cons_of_mem, not-mem-nil}
use mathlib.Core.List.Perm
use native.Mathlib.Omega.{arith}
use mogtrade_engine.Base.Tests.{Eq, ◌is◌, if◌then◌else◌, Bool-cases}

abbrev pub Dict {ℓ κ} : Type ℓ → Type κ → Type (ℓ ⊔ κ)
Dict K V = List (K × V)

module _ {ℓ κ} {K : Type ℓ} {V : Type κ} ⦃e : Eq K⦄ where
  unfoldable pub lookup : K → Dict K V → Option V
  lookup k [] = none
  lookup k ((j, v) ∷ d) = if j is k then some v else lookup k d

  unfoldable pub insert : K → V → Dict K V → Dict K V
  insert k v [] = (k, v) ∷ []
  insert k v ((j, w) ∷ d) = if j is k then (j, v) ∷ d else (j, w) ∷ insert k v d

  -- Go's `delete`: nothing happens on a missing key.
  unfoldable pub erase : K → Dict K V → Dict K V
  erase k [] = []
  erase k ((j, w) ∷ d) = if j is k then d else (j, w) ∷ erase k d

  pub lookup-insert :
      (k j : K) (v : V) (d : Dict K V)
      → lookup j (insert k v d) ≡ (if k is j then some v else lookup j d)
  unfolding lookup insert
  lookup-insert k j v [] = refl
  lookup-insert k j v ((i, w) ∷ d) =
      ground (arith, e.beq_iff k j, e.beq_iff i k, e.beq_iff i j, lookup-insert k j v d)

  pub lookup-erase_ne : (j k : K) (d : Dict K V) → j ≢ k → lookup j (erase k d) ≡ lookup j d
  unfolding lookup erase
  lookup-erase_ne j k [] h = refl
  lookup-erase_ne j k ((i, w) ∷ d) h =
      ground (arith, e.beq_iff i k, e.beq_iff i j, lookup-erase_ne j k d h)

  unfoldable pub keys : Dict K V → List K
  keys [] = []
  keys ((j, v) ∷ d) = j ∷ keys d

  pub lookup-of_mem-keys : (k : K) (d : Dict K V) → Mem k (keys d) → lookup k d ≢ none
  unfolding lookup keys
  lookup-of_mem-keys k [] m h = not-mem-nil m
  lookup-of_mem-keys k ((j, v) ∷ d) m h =
      Or.elim ⊥_prop (mem-cons.0 m) (λ same. ground (arith, e.beq_iff j k))
        (λ n. lookup-of_mem-keys k d n (ground arith))

  pub mem-keys : (k : K) (v : V) (d : Dict K V) → lookup k d ≡ some v → Mem k (keys d)
  unfolding lookup keys
  mem-keys k v [] h = absurd (ground arith)
  mem-keys k v ((j, w) ∷ d) h = elim (Bool-cases (j is k)) [
    | inl eq ↦ mem-cons.1 (Or.inl (sym ((e.beq_iff j k).0 eq)))
    | inr ne ↦ mem-cons_of_mem j (mem-keys k v d (ground arith))
  ]

  -- A key that is there keeps its place, and a new one is added.
  pub keys-insert_old :
      (k : K) (v u : V) (d : Dict K V) → lookup k d ≡ some u → keys (insert k v d) ≡ keys d
  unfolding lookup insert keys
  keys-insert_old k v u [] h = absurd (ground arith)
  keys-insert_old k v u ((j, w) ∷ d) h = ground (arith, keys-insert_old k v u d)

  pub keys-insert_new :
      (k : K) (v : V) (d : Dict K V) → lookup k d ≡ none → keys (insert k v d) ≡ keys d ++ k ∷ []
  unfolding lookup insert keys
  keys-insert_new k v [] h = refl
  keys-insert_new k v ((j, w) ∷ d) h = ground (arith, keys-insert_new k v d)

  pub keys-erase-perm :
      (k : K) (v : V) (d : Dict K V) → lookup k d ≡ some v → Perm (k ∷ keys (erase k d)) (keys d)
  unfolding lookup erase keys
  keys-erase-perm k v [] h = absurd (ground arith)
  keys-erase-perm k v ((j, w) ∷ d) h = elim (Bool-cases (j is k)) [
    | inl eq ↦ rw eq (rw ((e.beq_iff j k).0 eq) (Perm.refl _))
    | inr ne ↦
        rw ne (Perm.trans (Perm.swap j k _) (Perm.cons j (keys-erase-perm k v d (ground arith))))
  ]

  module _ {μ} (P : K → V → Type μ) where
    -- Every entry of the map satisfies `P`.
    abbrev pub Entries : Dict K V → Type μ
    Entries [] = Unit
    Entries ((k, v) ∷ d) = P k v × Entries d

    pub Entries-lookup : (k : K) (v : V) (d : Dict K V) → Entries d → lookup k d ≡ some v → P k v
    unfolding lookup
    Entries-lookup k v [] h found = absurd (ground arith)
    Entries-lookup k v ((j, w) ∷ d) h found = elim (Bool-cases (j is k)) [
      | inl eq ↦
          let key : j ≡ k = (e.beq_iff j k).0 eq in
          let value : w ≡ v = ground arith in subst₂ P key value h.0
      | inr ne ↦ Entries-lookup k v d h.1 (ground arith)
    ]

    pub Entries-insert : (k : K) (v : V) (d : Dict K V) → Entries d → P k v → Entries (insert k v d)
    unfolding insert
    Entries-insert k v [] h p = (p, tt)
    Entries-insert k v ((j, w) ∷ d) h p = elim (Bool-cases (j is k)) [
      | inl eq ↦ rw eq (rw ((e.beq_iff j k).0 eq) p, h.1)
      | inr ne ↦ rw ne (h.0, Entries-insert k v d h.1 p)
    ]

    pub Entries-erase : (k : K) (d : Dict K V) → Entries d → Entries (erase k d)
    unfolding erase
    Entries-erase k [] h = tt
    Entries-erase k ((j, w) ∷ d) h = elim (Bool-cases (j is k)) [
      | inl eq ↦ rw eq h.1
      | inr ne ↦ rw ne (h.0, Entries-erase k d h.1)
    ]

  -- No key is listed twice.
  abbrev pub IsDistinct : Dict K V → Type (ℓ ⊔ κ)
  IsDistinct [] = Unit
  IsDistinct ((k, v) ∷ d) = (lookup k d ≡ none) × IsDistinct d

  pub insert-IsDistinct : (k : K) (v : V) (d : Dict K V) → IsDistinct d → IsDistinct (insert k v d)
  unfolding insert lookup
  insert-IsDistinct k v [] h = (refl, tt)
  insert-IsDistinct k v ((j, w) ∷ d) h = elim (Bool-cases (j is k)) [
    | inl eq ↦ rw eq h
    | inr ne ↦ rw ne (
      ground (arith, lookup-insert k j v d, e.beq_iff k j, e.beq_iff j k),
      insert-IsDistinct k v d h.1,
    )
  ]

  pub erase-IsDistinct : (k : K) (d : Dict K V) → IsDistinct d → IsDistinct (erase k d)
  unfolding erase lookup
  erase-IsDistinct k [] h = tt
  erase-IsDistinct k ((j, w) ∷ d) h = elim (Bool-cases (j is k)) [
    | inl eq ↦ rw eq h.1
    | inr ne ↦
        rw ne (ground (arith, lookup-erase_ne j k d, e.beq_iff j k), erase-IsDistinct k d h.1)
  ]

  pub lookup-erase_self : (k : K) (d : Dict K V) → IsDistinct d → lookup k (erase k d) ≡ none
  unfolding erase lookup
  lookup-erase_self k [] h = refl
  lookup-erase_self k ((j, w) ∷ d) h = elim (Bool-cases (j is k)) [
    | inl eq ↦ rw eq (rw (← (e.beq_iff j k).0 eq) h.0)
    | inr ne ↦ rw ne (ground (arith, lookup-erase_self k d h.1))
  ]
