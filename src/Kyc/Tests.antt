-- ===== src/Kyc/Tests.antt =====
-- KYC records on small tables, and the theorems at work on them.
use mogtrade_engine.Base.{◌≡◌, refl, true, false, Option, none, some, String, [], ◌∷◌, string_eq}
use mogtrade_engine.Base.Int.{ℤ}
use mogtrade_engine.Database.People.{KycRecord, kyc_rejected, risk_low}
use mogtrade_engine.Database.Rows.{Tables}
use mogtrade_engine.Database.Table.{both, first_where, any_where, update_where}
use mogtrade_engine.Database.Session.{Session, ok, attempt, read_now, write, write_unique}
use mogtrade_engine.Database.Session.Rules.{Holds}
use mogtrade_engine.Database.Transaction.{begun, with_transaction}
use mogtrade_engine.Database.Kyc.{
  of_user, active_of, kyc_violates, create_kyc_record, lookup_active_kyc_for_user, verify_kyc,
}
use mogtrade_engine.Kyc.Service.{
  CreateParams, VerifyParams, IdentityDocument, ProofOfAddressDocument, create_record,
  create_and_find, verify, to_db_risk_profile,
}
use mogtrade_engine.Kyc.Forms.{answered}
use mogtrade_engine.Kyc.Handlers.{handle_approve}
use mogtrade_engine.Kyc.Life.{Follows}
use mogtrade_engine.Kyc.Orderly.{IsOrderly}
use mogtrade_engine.Kyc.System.{
  begin, approve, after_call, Reach, here, called, after_call-Follows, Reach-IsOrderly,
}
use mogtrade_engine.Kyc.Beginning.{Begins, create_record-Begins, create_record-blocked}
use mogtrade_engine.Kyc.Answers.{handle_approve-blind}

abbrev no_tables : Tables ℤ
no_tables = record {
  orders = [];
  executions = [];
  wallets = [];
  transactions = [];
  entries = [];
  snapshots = [];
  kycs = [];
  users = [];
  accounts = [];
  refresh_tokens = [];
  verifications = [];
}

abbrev on : Tables ℤ → Session ℤ
on tables = record {
  tables = tables;
  now = 7;
  faults = [];
  in_transaction = false;
  aborted = false;
}

abbrev turned_down : KycRecord
turned_down = record {
  id = "k";
  user_id = some "u";
  status = kyc_rejected;
  risk_profile = risk_low;
  verified_at = none;
  valid_window = 100;
  identity_doc = "{}";
  proof_of_address = "{}";
  created_at = 1;
  updated_at = 2;
  verified_by = some "v";
  rejection_reason = some "blurred";
  legal_names = none;
  gender = none;
  dob = none;
  address = none;
  verification_window = 10;
}

abbrev with_rejected : Tables ℤ
with_rejected = record no_tables { kycs = turned_down ∷ [] }

abbrev application : CreateParams
application = record { id = "n"; user_id = "u"; valid_window = 0; verification_window = 0 }

abbrev approval : VerifyParams
approval = record { user_id = "u"; verified_by = "v"; risk_profile = "low" }

abbrev json_of : IdentityDocument → Option String
json_of d = some "{}"

abbrev address_json : ProofOfAddressDocument → Option String
address_json d = some "{}"

abbrev begun_tables : Tables ℤ
begun_tables =
    after_call {Address = String} some json_of address_json (begin application) (on no_tables)

abbrev application_made : Reach {Address = String} some json_of address_json no_tables begun_tables
application_made = called (begin application) (on no_tables) here refl refl

abbrev approved_tables : Tables ℤ
approved_tables =
    after_call {Address = String} some json_of address_json (approve approval) (on begun_tables)

abbrev approved : Reach {Address = String} some json_of address_json no_tables approved_tables
approved = called (approve approval) (on begun_tables) application_made refl refl

after_call-Follows_example : Follows begun_tables.kycs approved_tables.kycs
after_call-Follows_example =
    after_call-Follows {Address = String} some json_of address_json (approve approval)
      (on begun_tables) tt

Reach-IsOrderly_example : IsOrderly approved_tables.kycs
Reach-IsOrderly_example =
    Reach-IsOrderly {Address = String} some json_of address_json refl approved ((tt, tt), tt)

-- The application was made and approved.
verifies : (with_transaction (verify approval) (on begun_tables)).0 ≡ ok tt
unfolding after_call create_record lookup_active_kyc_for_user create_and_find create_kyc_record
    write_unique read_now kyc_violates attempt first_where any_where both with_transaction verify
    verify_kyc write to_db_risk_profile
verifies = refl

create_record-Begins_example :
    Holds
      (λ x t.
        Begins application
          ((attempt (begun (attempt (on no_tables)).1)).0 ≡ false)
          7
          no_tables
          x
          t.tables)
      (λ e t. t.tables ≡ no_tables)
      (with_transaction (create_record application) (on no_tables))
create_record-Begins_example = create_record-Begins application (on no_tables)

has_record : any_where (of_user (some "u")) with_rejected.kycs ≡ true
unfolding any_where both
has_record = refl

none_active : any_where (active_of (some "u")) with_rejected.kycs ≡ false
unfolding any_where both
none_active = refl

create_record-blocked_example :
    Holds
      (λ x t. (x ≡ none) × (t.tables ≡ with_rejected))
      (λ e t. t.tables ≡ with_rejected)
      (with_transaction (create_record application) (on with_rejected))
create_record-blocked_example =
    create_record-blocked application (on with_rejected) has_record none_active

handle_approve-blind_example :
    ((handle_approve "u" "v" none (on with_rejected)).0
      ≡ (handle_approve "u" "v" none (on no_tables)).0)
    × ((handle_approve "u" "v" none (on with_rejected)).1.tables.kycs ≡ with_rejected.kycs)
handle_approve-blind_example =
    handle_approve-blind "u" "v" none (on no_tables) with_rejected none_active

-- The rejected user is told to be verified.
told : (handle_approve "u" "v" none (on with_rejected)).0 ≡ answered "verified"
unfolding handle_approve verify verify_kyc write attempt to_db_risk_profile update_where both
told = refl
