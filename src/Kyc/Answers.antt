-- ===== src/Kyc/Answers.antt =====
-- app/controller/kyc.go: what the answers of the handlers tell.
use mogtrade_engine.Base.{
  ◌≡◌, refl, inl, inr, Bool-cases, Option-cases, List-cases, Bool, true, false, Option, some,
  String, List, [], ◌∷◌, map, All, arith, string_eq, contains,
}
use mogtrade_engine.Database.People.{KycRecord, risk_low, risk_medium, risk_high}
use mogtrade_engine.Database.Rows.{Tables}
use mogtrade_engine.Database.Table.{any_where, update_where}
use mogtrade_engine.Database.Session.{Session, write, attempt}
use mogtrade_engine.Database.Kyc.{active_of, verified_record, verify_kyc}
use mogtrade_engine.Kyc.Service.{verify, to_db_risk_profile}
use mogtrade_engine.Kyc.Forms.{
  answered, slice_diff, valid_doc_types, PresignedUrl, presigned, object_name_of,
  allowed_content_types, handle_generate_presigned_upload_url,
}
use mogtrade_engine.Kyc.Handlers.{handle_approve}

slice_diff-none : (xs ys : List String) → slice_diff xs ys ≡ [] → All (λ x. contains ys x ≡ true) xs
unfolding slice_diff
slice_diff-none [] ys h = tt
slice_diff-none (x ∷ xs) ys h = elim (Bool-cases (contains ys x)) [
  | inl found ↦ (found, slice_diff-none xs ys (rw found at h))
  | inr missing ↦ absurd (ground arith)
]

presigned-names :
    (generate : String → List String → Option String) (uid stamp : String) (doc_types : List String)
    (urls : List (String × PresignedUrl))
    → presigned generate uid stamp doc_types ≡ some urls
    → map (λ u. u.0) urls ≡ doc_types
unfolding presigned
presigned-names generate uid stamp [] urls h = ground arith
presigned-names generate uid stamp (x ∷ xs) urls h =
    elim (Option-cases (generate (object_name_of uid x stamp) (allowed_content_types x))) [
      | inl refused ↦ absurd (ground (arith, rw (refused, presigned) at h))
      | inr (url, made) ↦ elim (Option-cases (presigned generate uid stamp xs)) [
        | inl refused ↦ absurd (ground (arith, rw (made, refused, presigned) at h))
        | inr (rest, rest_made) ↦ ground (
          arith,
          rw (made, rest_made, presigned) at h,
          presigned-names generate uid stamp xs rest rest_made,
        )
      ]
    ]

-- URLs are handed out only where every type asked for is among the valid ones, and then there is
-- one for each, in order.
pub handle_generate_presigned_upload_url-names :
    (complain : List String → String) (generate : String → List String → Option String)
    (uid stamp : String) (doc_types : List String) (urls : List (String × PresignedUrl))
    → handle_generate_presigned_upload_url complain generate uid stamp doc_types ≡ answered urls
    → All (λ x. contains valid_doc_types x ≡ true) doc_types × (map (λ u. u.0) urls ≡ doc_types)
unfolding handle_generate_presigned_upload_url
handle_generate_presigned_upload_url-names complain generate uid stamp doc_types urls h =
    elim (List-cases (slice_diff doc_types valid_doc_types)) [
      | inr (x, xs, invalid) ↦ absurd (ground arith)
      | inl valid ↦
          let made : presigned generate uid stamp doc_types ≡ some urls = ground arith in
          (
            slice_diff-none doc_types valid_doc_types valid,
            presigned-names generate uid stamp doc_types urls made,
          )
    ]

update_where-none :
    (p : KycRecord → Bool) (f : KycRecord → KycRecord) (ks : List KycRecord)
    → any_where p ks ≡ false
    → update_where p f ks ≡ ks
unfolding any_where update_where
update_where-none p f [] h = refl
update_where-none p f (k ∷ ks) h = ground (arith, update_where-none p f ks)

module _ {A : Type 0} where
  -- What the approval of a user without an active record answers is what it answers on any other
  -- tables, so that the answer is "verified" though no record is; no record changes.
  pub handle_approve-blind :
      (target verifier : String) (risk : Option String) (s : Session A) (u : Tables A)
      → any_where (active_of (some target)) u.kycs ≡ false
      → let r = handle_approve target verifier risk (record s { tables = u }) in
        (r.0 ≡ (handle_approve target verifier risk s).0) × (r.1.tables.kycs ≡ u.kycs)
  unfolding handle_approve verify verify_kyc write attempt to_db_risk_profile
  handle_approve-blind target verifier risk s u inactive = (
    ground arith,
    ground (
      arith,
      update_where-none (active_of (some target)) (verified_record (some verifier) risk_low s.now)
          u.kycs inactive,
      update_where-none (active_of (some target))
          (verified_record (some verifier) risk_medium s.now) u.kycs inactive,
      update_where-none (active_of (some target)) (verified_record (some verifier) risk_high s.now)
          u.kycs inactive,
    ),
  )
