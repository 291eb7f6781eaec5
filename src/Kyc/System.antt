-- ===== src/Kyc/System.antt =====
-- services/kyc/service.go: the calls of the service, in any order, at any instant and with any
-- faults. SetStatus, which sets any status and which no code of the program calls, is one of them;
-- what the others keep is said of the runs without it.
use mogtrade_engine.Base.{◌≡◌, Option, String, [], string_eq}
use mogtrade_engine.Database.Rows.{Tables}
use mogtrade_engine.Database.Session.{Session}
use mogtrade_engine.Kyc.Service.{
  CreateParams, UpdateProfileParams, UpdateDocumentsParams, VerifyParams, RejectParams,
  SetStatusParams, IdentityDocument, ProofOfAddressDocument, create_record, update_profile,
  update_documents, mark_verifying, verify, reject, set_status,
}
use mogtrade_engine.Kyc.Effects.{
  Effect, Affects-Effect, create_record-Affects, mark_verifying-Affects, verify-Affects,
  reject-Affects, update_documents-Affects, update_profile-Affects,
}
use mogtrade_engine.Kyc.Life.{Follows, Effect-Follows}
use mogtrade_engine.Kyc.Orderly.{IsOrderly, Effect-IsOrderly}

-- The calls of the service that change something.
pub data Call (Address : Type 0) : Type 0 where
  begin : CreateParams → Call Address
  profile : UpdateProfileParams Address → Call Address
  documents : UpdateDocumentsParams → Call Address
  verifying : String → Call Address
  approve : VerifyParams → Call Address
  refuse : RejectParams → Call Address
  status : SetStatusParams → Call Address

-- The call is not one of SetStatus.
abbrev pub IsDecision : {Address : Type 0} → Call Address → Type 0
IsDecision (begin p) = Unit
IsDecision (profile p) = Unit
IsDecision (documents p) = Unit
IsDecision (verifying user) = Unit
IsDecision (approve p) = Unit
IsDecision (refuse p) = Unit
IsDecision (status p) = ⊥

module _ {A : Type 0} where
  module _ {Address : Type 0} (marshal : Address → Option String)
      (marshal_identity : IdentityDocument → Option String)
      (marshal_address : ProofOfAddressDocument → Option String) where
    -- The tables after a call, done or failed.
    unfoldable pub after_call : Call Address → Session A → Tables A
    after_call (begin p) s = (create_record p s).1.tables
    after_call (profile p) s = (update_profile marshal p s).1.tables
    after_call (documents p) s = (update_documents marshal_identity marshal_address p s).1.tables
    after_call (verifying user) s = (mark_verifying user s).1.tables
    after_call (approve p) s = (verify p s).1.tables
    after_call (refuse p) s = (reject p s).1.tables
    after_call (status p) s = (set_status p s).1.tables

    after_call-Effect :
        (c : Call Address) (s : Session A) → IsDecision c → Effect s.tables (after_call c s)
    unfolding after_call
    after_call-Effect (status p) s h = absurd h
    after_call-Effect (begin p) s h = Affects-Effect s _ (create_record-Affects p s)
    after_call-Effect (profile p) s h = Affects-Effect s _ (update_profile-Affects marshal p s)
    after_call-Effect (documents p) s h =
        Affects-Effect s _ (update_documents-Affects marshal_identity marshal_address p s)
    after_call-Effect (verifying user) s h = Affects-Effect s _ (mark_verifying-Affects user s)
    after_call-Effect (approve p) s h = Affects-Effect s _ (verify-Affects p s)
    after_call-Effect (refuse p) s h = Affects-Effect s _ (reject-Affects p s)

    -- Whatever a call other than SetStatus does, done or failed, each KYC record stays that of its
    -- user and keeps its status or takes one that may follow it; no record goes away, and one may be
    -- added, pending. No such call verifies a rejected or an expired record.
    pub after_call-Follows :
        (c : Call Address) (s : Session A)
        → IsDecision c
        → Follows s.tables.kycs (after_call c s).kycs
    after_call-Follows c s h = Effect-Follows (after_call-Effect c s h)

    -- Calls one after another, each in a session of its own on the tables that are there.
    pub data Reach (s : Tables A) : Tables A → Type 0 where
      here : Reach s s
      called :
          {t u : Tables A} (c : Call Address) (from : Session A)
          → Reach s t
          → from.tables ≡ t
          → u ≡ after_call c from
          → Reach s u

    -- No call on the way is one of SetStatus.
    abbrev pub AllDecisions : {s t : Tables A} → Reach s t → Type 0
    AllDecisions here = Unit
    AllDecisions (called c from before at e) = AllDecisions before × IsDecision c

    -- From tables without KYC records, after any calls in any order, none of them of SetStatus: no
    -- user has two records, a verified record says who verified it and when and has no reason for a
    -- rejection, and a rejected one says who rejected it and why and has no instant of a
    -- verification.
    pub Reach-IsOrderly :
        {s t : Tables A} → s.kycs ≡ [] → (r : Reach s t) → AllDecisions r → IsOrderly t.kycs
    Reach-IsOrderly {s} empty here all = rw empty (record { decided = tt; distinct = tt })
    Reach-IsOrderly {s} empty (called c from before at e) all = rw e (
        Effect-IsOrderly (after_call-Effect c from all.1)
          (rw at (Reach-IsOrderly empty before all.0)))
