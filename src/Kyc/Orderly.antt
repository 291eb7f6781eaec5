-- ===== src/Kyc/Orderly.antt =====
-- services/kyc/service.go: what every KYC record says of how it was decided, and that a user has one
-- record.
use mogtrade_engine.Base.{
  ℕ, ⊤, ◌≡◌, ◌∙◌, refl, inl, inr, Bool, Bool-cases, true, false, Option, none, some, String, List,
  [], ◌∷◌, ◌++◌, All, All-append, arith, string_eq,
}
use mogtrade_engine.Database.People.{kyc_verified, kyc_rejected, KycRecord, is_some}
use mogtrade_engine.Database.Rows.{Tables}
use mogtrade_engine.Database.Table.{both, any_where, any_where-last, update_where}
use mogtrade_engine.Database.Kyc.{
  CreateKycRecordParams, of_user, active_of, reviewable_of, kyc_violates, new_record,
}
use mogtrade_engine.Kyc.Effects.{
  Effect, same, applied, reviewed, refused, approved, documented, profiled,
}

-- Who decided, when and why is written where a record says that it was decided.
pub record IsDecided (k : KycRecord) : Type 0 where
  pub verified :
      k.status ≡ kyc_verified
      → (is_some k.verified_at ≡ true)
        × (is_some k.verified_by ≡ true)
        × (k.rejection_reason ≡ none)
  pub rejected :
      k.status ≡ kyc_rejected
      → (k.verified_at ≡ none)
        × (is_some k.verified_by ≡ true)
        × (is_some k.rejection_reason ≡ true)

-- No user has two records.
abbrev pub IsDistinct : List KycRecord → Type 0
IsDistinct [] = ⊤
IsDistinct (k ∷ ks) = (any_where (of_user k.user_id) ks ≡ false) × IsDistinct ks

pub record IsOrderly (ks : List KycRecord) : Type 0 where
  pub decided : All IsDecided ks
  pub distinct : IsDistinct ks

All-update :
    (p : KycRecord → Bool) (f : KycRecord → KycRecord) (ks : List KycRecord)
    → ((k : KycRecord) → IsDecided k → IsDecided (f k))
    → All IsDecided ks
    → All IsDecided (update_where p f ks)
unfolding update_where
All-update p f [] keeps h = tt
All-update p f (k ∷ ks) keeps h = elim (Bool-cases (p k)) [
  | inl picked ↦ rw picked (keeps k h.0, All-update p f ks keeps h.1)
  | inr left ↦ rw left (h.0, All-update p f ks keeps h.1)
]

any_where-update :
    (user : Option String) (p : KycRecord → Bool) (f : KycRecord → KycRecord) (ks : List KycRecord)
    → ((k : KycRecord) → (f k).user_id ≡ k.user_id)
    → any_where (of_user user) (update_where p f ks) ≡ any_where (of_user user) ks
unfolding any_where update_where
any_where-update user p f [] keeps = refl
any_where-update user p f (k ∷ ks) keeps = elim (Bool-cases (p k)) [
  | inl picked ↦ rw (picked, keeps k, any_where-update user p f ks keeps) refl
  | inr left ↦ rw (left, any_where-update user p f ks keeps) refl
]

IsDistinct-update :
    (p : KycRecord → Bool) (f : KycRecord → KycRecord) (ks : List KycRecord)
    → ((k : KycRecord) → (f k).user_id ≡ k.user_id)
    → IsDistinct ks
    → IsDistinct (update_where p f ks)
unfolding update_where
IsDistinct-update p f [] keeps h = tt
IsDistinct-update p f (k ∷ ks) keeps h = elim (Bool-cases (p k)) [
  | inl picked ↦ rw picked (
    rw (keeps k) (any_where-update k.user_id p f ks keeps ∙ h.0),
    IsDistinct-update p f ks keeps h.1,
  )
  | inr left ↦
      rw left (any_where-update k.user_id p f ks keeps ∙ h.0, IsDistinct-update p f ks keeps h.1)
]

update-IsOrderly :
    (p : KycRecord → Bool) (f : KycRecord → KycRecord) (ks : List KycRecord)
    → ((k : KycRecord) → (f k).user_id ≡ k.user_id)
    → ((k : KycRecord) → IsDecided k → IsDecided (f k))
    → IsOrderly ks
    → IsOrderly (update_where p f ks)
update-IsOrderly p f ks user keeps h = record {
  decided = All-update p f ks keeps h.decided;
  distinct = IsDistinct-update p f ks user h.distinct;
}

both_sym : (a b : Option String) → both a b ≡ both b a
unfolding both
both_sym none none = refl
both_sym none (some b) = refl
both_sym (some a) none = refl
both_sym (some a) (some b) = ground (arith, string_eq.beq_iff a b, string_eq.beq_iff b a)

IsDistinct-last :
    (ks : List KycRecord) (k : KycRecord)
    → any_where (of_user k.user_id) ks ≡ false
    → IsDistinct ks
    → IsDistinct (ks ++ k ∷ [])
unfolding any_where
IsDistinct-last [] k free h = (refl, tt)
IsDistinct-last (x ∷ xs) k free h = (
  ground (arith, any_where-last (of_user x.user_id) xs k, both_sym x.user_id k.user_id, h.0),
  IsDistinct-last xs k (ground arith) h.1,
)

module _ {A : Type 0} where
  new-IsOrderly :
      (p : CreateKycRecordParams) (now : ℕ) (s : Tables A)
      → kyc_violates p s ≡ none
      → IsOrderly s.kycs
      → IsOrderly (s.kycs ++ new_record now p ∷ [])
  unfolding kyc_violates
  new-IsOrderly p now s free h = record {
    decided =
        All-append IsDecided s.kycs (new_record now p ∷ []) h.decided
          (record { verified = λ e. ground arith; rejected = λ e. ground arith }, tt);
    distinct = IsDistinct-last s.kycs (new_record now p) (ground arith) h.distinct;
  }

  pub Effect-IsOrderly : {s t : Tables A} → Effect s t → IsOrderly s.kycs → IsOrderly t.kycs
  Effect-IsOrderly {s} (same e) h = rw e h
  Effect-IsOrderly {s} (applied p now free e) h = rw e (new-IsOrderly p now s free h)
  Effect-IsOrderly {s} (reviewed user now e) h = rw e (
      update-IsOrderly (reviewable_of user) _ s.kycs (λ k. refl)
        (λ k d. record { verified = λ e. ground arith; rejected = λ e. ground arith }) h)
  Effect-IsOrderly {s} (refused user by reason now e) h = rw e (
      update-IsOrderly (active_of user) _ s.kycs (λ k. refl)
        (λ k d. record { verified = λ e. ground arith; rejected = λ e. (refl, refl, refl) }) h)
  Effect-IsOrderly {s} (approved user by risk now e) h = rw e (
      update-IsOrderly (active_of user) _ s.kycs (λ k. refl)
        (λ k d. record { verified = λ e. (refl, refl, refl); rejected = λ e. ground arith }) h)
  Effect-IsOrderly {s} (documented user identity address now e) h = rw e (
      update-IsOrderly (of_user user) _ s.kycs (λ k. refl)
        (λ k d. record { verified = λ e. ground arith; rejected = λ e. ground arith }) h)
  Effect-IsOrderly {s} (profiled p now e) h = rw e (
      update-IsOrderly (of_user p.user_id) _ s.kycs (λ k. refl)
        (λ k d. record { verified = d.verified; rejected = d.rejected }) h)
