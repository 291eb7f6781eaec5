-- ===== src/Base/Sequences.antt =====
-- Lists under native indices, and predicates on their entries.
use Prim.Native.Nat.{ℕ, zero, suc, ◌+◌, ◌≤◌, ◌<◌}
use mathlib.Core.Path.{◌≡◌, refl, ap, ◌∙◌}
use mathlib.Core.List.{List, [], ◌∷◌, ◌++◌, Perm, Permᴰ, Mem, mem-cons, not-mem-nil}
use mathlib.Core.Bool.{Bool, false, Bool-set}
use mathlib.Core.Logic.Or
use mathlib.Core.Logic.{∥∥₁_elim}
use native.Mathlib.Nat.{ℕ_set}
use mathlib.Core.List.Perm
use mathlib.Core.Option.{Option, none, some}
use native.Mathlib.Omega.{arith}
use mogtrade_engine.Base.Tests.{◌==◌, if◌then◌else◌}

module _ {ℓ} {A : Type ℓ} where
  abbrev pub length : List A → ℕ
  length [] = 0
  length (x ∷ xs) = suc (length xs)

  abbrev pub get_elem? : List A → ℕ → Option A
  get_elem? [] i = none
  get_elem? (x ∷ xs) zero = some x
  get_elem? (x ∷ xs) (suc i) = get_elem? xs i

  -- A write out of bounds changes nothing.
  abbrev pub set : List A → ℕ → A → List A
  set [] i v = []
  set (x ∷ xs) zero v = v ∷ xs
  set (x ∷ xs) (suc i) v = x ∷ set xs i v

  abbrev pub take : ℕ → List A → List A
  take zero xs = []
  take (suc n) [] = []
  take (suc n) (x ∷ xs) = x ∷ take n xs

  -- Every entry satisfies `P`.
  abbrev pub All {κ} : (A → Type κ) → List A → Type κ
  All P [] = Unit
  All P (x ∷ xs) = P x × All P xs

  pub length-append : (xs ys : List A) → length (xs ++ ys) ≡ length xs + length ys
  length-append [] ys = omega arith
  length-append (x ∷ xs) ys = omega (arith, length-append xs ys)

  pub length-set : (xs : List A) (i : ℕ) (v : A) → length (set xs i v) ≡ length xs
  length-set [] i v = refl
  length-set (x ∷ xs) zero v = refl
  length-set (x ∷ xs) (suc i) v = ap suc (length-set xs i v)

  pub All-append {κ} : (P : A → Type κ) (xs ys : List A) → All P xs → All P ys → All P (xs ++ ys)
  All-append P [] ys h k = k
  All-append P (x ∷ xs) ys h k = (h.0, All-append P xs ys h.1 k)

  pub All-parts {κ} : (P : A → Type κ) (xs ys : List A) → All P (xs ++ ys) → All P xs × All P ys
  All-parts P [] ys h = (tt, h)
  All-parts P (x ∷ xs) ys h = let (front, back) = All-parts P xs ys h.1 in ((h.0, front), back)

  -- `xs[i]`, or `v` outside the list.
  unfoldable pub nth : A → List A → ℕ → A
  nth v [] i = v
  nth v (x ∷ xs) zero = x
  nth v (x ∷ xs) (suc i) = nth v xs i

  -- `xs[i], xs[j] = xs[j], xs[i]`
  unfoldable pub swap : A → List A → ℕ → ℕ → List A
  swap v xs i j = set (set xs i (nth v xs j)) j (nth v xs i)

  pub length-swap : (v : A) (xs : List A) (i j : ℕ) → length (swap v xs i j) ≡ length xs
  unfolding swap
  length-swap v xs i j =
      length-set (set xs i (nth v xs j)) j (nth v xs i) ∙ length-set xs i (nth v xs j)

  pub nth-set :
      (v : A) (xs : List A) (i j : ℕ) (x : A)
      → i < length xs
      → nth v (set xs i x) j ≡ (if i == j then x else nth v xs j)
  unfolding nth
  nth-set v [] i j x h = absurd (omega arith)
  nth-set v (y ∷ ys) zero zero x h = refl
  nth-set v (y ∷ ys) zero (suc j) x h = ground arith
  nth-set v (y ∷ ys) (suc i) zero x h = ground arith
  nth-set v (y ∷ ys) (suc i) (suc j) x h = ground (arith, nth-set v ys i j x)

  pub nth-swap :
      (v : A) (xs : List A) (i j c : ℕ)
      → i < length xs
      → j < length xs
      → nth v (swap v xs i j) c
        ≡ (if j == c then nth v xs i else if i == c then nth v xs j else nth v xs c)
  unfolding swap
  nth-swap v xs i j c hi hj =
      let size = length-set xs i (nth v xs j) in
      ground (
        arith,
        size,
        nth-set v (set xs i (nth v xs j)) j c (nth v xs i) (omega (arith, size)),
        nth-set v xs i c (nth v xs j) hi,
      )

  pub nth-take : (v : A) (n : ℕ) (xs : List A) (i : ℕ) → i < n → nth v (take n xs) i ≡ nth v xs i
  unfolding nth
  nth-take v zero xs i h = absurd (omega arith)
  nth-take v (suc n) [] i h = refl
  nth-take v (suc n) (x ∷ xs) zero h = refl
  nth-take v (suc n) (x ∷ xs) (suc i) h = nth-take v n xs i (omega arith)

  pub length-take : (n : ℕ) (xs : List A) → n ≤ length xs → length (take n xs) ≡ n
  length-take zero xs h = refl
  length-take (suc n) [] h = absurd (omega arith)
  length-take (suc n) (x ∷ xs) h = ap suc (length-take n xs (omega arith))

  pub nth-append :
      (v : A) (xs ys : List A) (i : ℕ) → i < length xs → nth v (xs ++ ys) i ≡ nth v xs i
  unfolding nth
  nth-append v [] ys i h = absurd (omega arith)
  nth-append v (x ∷ xs) ys zero h = refl
  nth-append v (x ∷ xs) ys (suc i) h = nth-append v xs ys i (omega arith)

  -- The last entry, moved to the front.
  pub last-perm :
      (v : A) (n : ℕ) (xs : List A) → length xs ≡ suc n → Perm (nth v xs n ∷ take n xs) xs
  unfolding nth
  last-perm v zero (x ∷ []) h = Perm.refl (x ∷ [])
  last-perm v (suc n) (x ∷ xs) h =
      Perm.trans (Perm.swap x _ _) (Perm.cons x (last-perm v n xs (omega arith)))
  last-perm v n xs h = absurd (omega arith)

  set-perm :
      (v : A) (xs : List A) (i : ℕ) (x : A)
      → i < length xs
      → Perm (nth v xs i ∷ set xs i x) (x ∷ xs)
  unfolding nth
  set-perm v [] i x h = absurd (omega arith)
  set-perm v (y ∷ ys) zero x h = Perm.swap x y ys
  set-perm v (y ∷ ys) (suc i) x h =
      Perm.trans (Perm.swap y _ _)
        (Perm.trans (Perm.cons y (set-perm v ys i x (omega arith))) (Perm.swap x y ys))

  pub swap-perm :
      (v : A) (xs : List A) (i j : ℕ) → i < length xs → j < length xs → Perm (swap v xs i j) xs
  unfolding swap
  swap-perm v xs i j hi hj =
      let ys = set xs i (nth v xs j) in
      let size = length-set xs i (nth v xs j) in
      let kept : nth v ys j ≡ nth v xs j = ground (arith, nth-set v xs i j (nth v xs j) hi) in
      let second = rw kept at (set-perm v ys j (nth v xs i) (omega (arith, size))) in
      Perm.cons_inv (Perm.trans second (set-perm v xs i (nth v xs j) hi))

  length-permᴰ : {xs ys : List A} → Permᴰ xs ys → length xs ≡ length ys
  length-permᴰ Permᴰ.nil = refl
  length-permᴰ (Permᴰ.cons _ p) = ap suc (length-permᴰ p)
  length-permᴰ (Permᴰ.swap _ _) = refl
  length-permᴰ (Permᴰ.trans p q) = length-permᴰ p ∙ length-permᴰ q

  pub length-perm : {xs ys : List A} → Perm xs ys → length xs ≡ length ys
  length-perm p = ∥∥₁_elim p (ℕ_set _ _) length-permᴰ

  -- What holds of every position holds of every member.
  pub nth-mem :
      (v : A) (P : A → Bool) (xs : List A)
      → ((i : ℕ) → i < length xs → P (nth v xs i) ≡ false)
      → (x : A) → Mem x xs
      → P x ≡ false
  unfolding nth
  nth-mem v P [] h x m = absurd (not-mem-nil m)
  nth-mem v P (y ∷ ys) h x m =
      Or.elim (Bool-set _ _) (mem-cons.0 m) (λ same. rw same (h 0 (omega arith)))
        (λ later. nth-mem v P ys (λ i p. h (suc i) (omega arith)) x later)
