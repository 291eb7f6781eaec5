-- ===== src/Kyc/Life.antt =====
-- services/kyc/service.go: how a call moves the KYC records along their life.
use mogtrade_engine.Base.{
  ◌≡◌, refl, ◌⊎◌, inl, inr, Bool, Bool-cases, true, List, [], ◌∷◌, ◌++◌, arith, string_eq,
}
use mogtrade_engine.Database.People.{
  KycStatus, kyc_pending, kyc_verifying, kyc_verified, kyc_rejected, KycRecord, is_active,
  can_begin_verifying,
}
use mogtrade_engine.Database.Rows.{Tables}
use mogtrade_engine.Database.Table.{update_where}
use mogtrade_engine.Database.Kyc.{of_user, active_of, reviewable_of, new_record}
use mogtrade_engine.Kyc.Effects.{
  Effect, same, applied, reviewed, refused, approved, documented, profiled,
}

-- How a record's status may change.
pub data Next : KycStatus → KycStatus → Type 0 where
  resubmitted : {from : KycStatus} → Next from kyc_pending
  taken_up : {from : KycStatus} → can_begin_verifying from ≡ true → Next from kyc_verifying
  accepted : {from : KycStatus} → is_active from ≡ true → Next from kyc_verified
  turned_down : {from : KycStatus} → is_active from ≡ true → Next from kyc_rejected

-- The record is still that of the user, and its status is the same or the next.
pub record Followed (k l : KycRecord) : Type 0 where
  pub id : l.id ≡ k.id
  pub user : l.user_id ≡ k.user_id
  pub status : (l.status ≡ k.status) ⊎ Next k.status l.status

-- Record by record, with a pending one at the end at most.
pub data Follows : List KycRecord → List KycRecord → Type 0 where
  no_new : Follows [] []
  one_new : (k : KycRecord) → k.status ≡ kyc_pending → Follows [] (k ∷ [])
  each :
      {k l : KycRecord} {ks ls : List KycRecord}
      → Followed k l
      → Follows ks ls
      → Follows (k ∷ ks) (l ∷ ls)

unchanged : (k : KycRecord) → Followed k k
unchanged k = record { id = refl; user = refl; status = inl refl }

all_unchanged : (ks : List KycRecord) → Follows ks ks
all_unchanged [] = no_new
all_unchanged (k ∷ ks) = each (unchanged k) (all_unchanged ks)

with_new :
    (ks : List KycRecord) (k : KycRecord) → k.status ≡ kyc_pending → Follows ks (ks ++ k ∷ [])
with_new [] k is_pending = one_new k is_pending
with_new (x ∷ xs) k is_pending = each (unchanged x) (with_new xs k is_pending)

update_where-Follows :
    (p : KycRecord → Bool) (f : KycRecord → KycRecord) (ks : List KycRecord)
    → ((k : KycRecord) → p k ≡ true → Followed k (f k))
    → Follows ks (update_where p f ks)
unfolding update_where
update_where-Follows p f [] moves = no_new
update_where-Follows p f (k ∷ ks) moves = elim (Bool-cases (p k)) [
  | inl picked ↦ rw picked (each (moves k picked) (update_where-Follows p f ks moves))
  | inr left ↦ rw left (each (unchanged k) (update_where-Follows p f ks moves))
]

module _ {A : Type 0} where
  pub Effect-Follows : {s t : Tables A} → Effect s t → Follows s.kycs t.kycs
  Effect-Follows {s} (same e) = rw e (all_unchanged s.kycs)
  Effect-Follows {s} (applied p now free e) = rw e (with_new s.kycs (new_record now p) refl)
  Effect-Follows {s} (reviewed user now e) = rw e (
      update_where-Follows (reviewable_of user) _ s.kycs
        (λ k picked. record { id = refl; user = refl; status = inr (taken_up (ground arith)) }))
  Effect-Follows {s} (refused user by reason now e) = rw e (
      update_where-Follows (active_of user) _ s.kycs
        (λ k picked. record { id = refl; user = refl; status = inr (turned_down (ground arith)) }))
  Effect-Follows {s} (approved user by risk now e) = rw e (
      update_where-Follows (active_of user) _ s.kycs
        (λ k picked. record { id = refl; user = refl; status = inr (accepted (ground arith)) }))
  Effect-Follows {s} (documented user identity address now e) = rw e (
      update_where-Follows (of_user user) _ s.kycs
        (λ k picked. record { id = refl; user = refl; status = inr resubmitted }))
  Effect-Follows {s} (profiled p now e) = rw e (
      update_where-Follows (of_user p.user_id) _ s.kycs
        (λ k picked. record { id = refl; user = refl; status = inl refl }))
