-- ===== src/Kyc/Forms.antt =====
-- app/controller/kyc.go: what the handlers take and answer, the checks of a request, and the handler
-- of the presigned URLs, which does without the database.
use mogtrade_engine.Base.{
  ℕ, Bool, true, false, ◌&&◌, ◌||◌, not, Option, none, some, String, List, [], ◌∷◌, if◌then◌else◌,
  string_eq, ◌is◌, contains, append_text, ◌⊎◌, inl, inr,
}
use mogtrade_engine.Kyc.Service.{IdentityDocument, ProofOfAddressDocument}

-- 200, 102, 204, 400 and 500.
pub data Answer (X : Type 0) : Type 0 where
  answered : X → Answer X
  processing : Answer X
  no_content : Answer X
  bad_request : String → Answer X
  server_error : Answer X

pub record Requirements : Type 0 where
  pub status : String
  pub expires_at : ℕ
  pub verify_before : ℕ
  pub pending : List String
  pub ready : Bool

abbrev pub is_given : {X : Type 0} → Option X → Bool
is_given none = false
is_given (some x) = true

abbrev pub first_of : {X : Type 0} → Option X → Option X → Option X
first_of (some x) o = some x
first_of none o = o

abbrev pub risk_or_low : Option String → String
risk_or_low none = "low"
risk_or_low (some risk) = if risk is "" then "low" else risk

abbrev pub is_missing : List String → Bool
is_missing [] = true
is_missing (x ∷ []) = x is ""
is_missing (x ∷ y ∷ xs) = false

-- record.Ready != nil && *record.Ready
abbrev pub is_true : Option Bool → Bool
is_true (some b) = b
is_true none = false

unfoldable pub pending_of : String → Option Bool → List String
pending_of status ready =
    if status is "pending"
    then (if is_true ready
        then "upload_documents" ∷ []
        else "complete_profile" ∷ "upload_documents" ∷ [])
    else if status is "verified"
    then "none" ∷ []
    else if status is "verifying"
    then "admin_review_in_progress" ∷ []
    else if status is "rejected"
    then "resubmit_kyc" ∷ "provide_additional_documents" ∷ []
    else if status is "expired"
    then "renew_kyc" ∷ []
    else "review_kyc_status" ∷ []

pub record UpdateProfileInput (Address : Type 0) : Type 0 where
  pub legal_names : String
  pub gender : String
  pub dob : String
  pub address : Option Address

pub record DocumentUploadItem : Type 0 where
  pub object_name : String
  pub url : String
  pub fingerprint : String

pub record BatchUpdateDocsInput : Type 0 where
  pub front : Option DocumentUploadItem
  pub back : Option DocumentUploadItem
  pub selfie : Option DocumentUploadItem
  pub proof_of_address : Option DocumentUploadItem
  pub base_uri : String

-- What the store finds: the zero value has two empty texts.
pub record StoredObject : Type 0 where
  pub name : String
  pub fingerprint : String

abbrev pub fingerprint_of : Option DocumentUploadItem → String
fingerprint_of none = ""
fingerprint_of (some item) = item.fingerprint

abbrev pub url_of : Option DocumentUploadItem → String
url_of none = ""
url_of (some item) = item.url

abbrev pub identity_of : BatchUpdateDocsInput → IdentityDocument
identity_of input = record {
  front_hash = fingerprint_of input.front;
  back_hash = fingerprint_of input.back;
  selfie_hash = fingerprint_of input.selfie;
  uri = if input.base_uri is "" then url_of input.front else input.base_uri;
}

abbrev pub address_of : BatchUpdateDocsInput → ProofOfAddressDocument
address_of input = record {
  doc_hash = fingerprint_of input.proof_of_address;
  uri = url_of input.proof_of_address;
}

abbrev pub documents_of : BatchUpdateDocsInput → List (String × Option DocumentUploadItem)
documents_of input =
    ("front", input.front)
    ∷ ("back", input.back)
    ∷ ("selfie", input.selfie)
    ∷ ("proof_of_address", input.proof_of_address)
    ∷ []

-- The outcome of FindObjectWithFingerprint, by the object's name and fingerprint: what it finds, or
-- the text of its error.
abbrev pub FindObject : Type 0
FindObject = String → String → StoredObject ⊎ String

-- validateDoc: the text of its error.
abbrev pub found_error : String → StoredObject ⊎ String → Option String
found_error doc_type (inr text) = some text
found_error doc_type (inl object) =
    if (object.fingerprint is "") && (object.name is "")
    then some (
        append_text "document '"
          (append_text doc_type "' not found or fingerprint mismatch in storage"))
    else none

abbrev pub document_error : FindObject → String → Option DocumentUploadItem → Option String
document_error find doc_type none = none
document_error find doc_type (some item) =
    found_error doc_type (find item.object_name item.fingerprint)

unfoldable pub first_error : FindObject → List (String × Option DocumentUploadItem) → Option String
first_error find [] = none
first_error find ((doc_type, item) ∷ docs) =
    let rest = first_error find docs in
    elim (document_error find doc_type item) [ none ↦ rest | some text ↦ some text ]

abbrev pub has_none : BatchUpdateDocsInput → Bool
has_none input =
    not (is_given input.front)
    && (not (is_given input.back)
        && (not (is_given input.selfie) && not (is_given input.proof_of_address)))

-- helpers.SliceDiff
unfoldable pub slice_diff : List String → List String → List String
slice_diff [] ys = []
slice_diff (x ∷ xs) ys = let rest = slice_diff xs ys in if contains ys x then rest else x ∷ rest

abbrev pub valid_doc_types : List String
valid_doc_types = "selfie" ∷ "back" ∷ "front" ∷ "proof_of_address" ∷ []

abbrev pub allowed_content_types : String → List String
allowed_content_types doc_type =
    if (doc_type is "front") || ((doc_type is "back") || (doc_type is "selfie"))
    then "image/jpeg" ∷ "image/png" ∷ []
    else "image/jpeg" ∷ "image/png" ∷ "application/pdf" ∷ []

abbrev pub object_name_of : String → String → String → String
object_name_of uid doc_type stamp =
    append_text "kyc/"
      (append_text uid (append_text "/" (append_text doc_type (append_text "-" stamp))))

pub record PresignedUrl : Type 0 where
  pub url : String
  pub object_name : String
  pub allowed_types : List String

-- The loop over the types; GeneratePresignedUploadURL answers with a URL, or fails.
unfoldable pub presigned :
    (String → List String → Option String)
    → String
    → String
    → List String
    → Option (List (String × PresignedUrl))
presigned generate uid stamp [] = some []
presigned generate uid stamp (doc_type ∷ doc_types) =
    let rest = presigned generate uid stamp doc_types in
    elim (generate (object_name_of uid doc_type stamp) (allowed_content_types doc_type)) [
      | none ↦ none
      | some url ↦ elim rest [
        | none ↦ none
        | some urls ↦ some (
            (
              doc_type,
              record {
                url = url;
                object_name = object_name_of uid doc_type stamp;
                allowed_types = allowed_content_types doc_type;
              },
            )
            ∷ urls)
      ]
    ]

abbrev pub presign_answer :
    Option (List (String × PresignedUrl)) → Answer (List (String × PresignedUrl))
presign_answer none = server_error
presign_answer (some urls) = answered urls

-- The types are those of the query, split at commas. The result is the list from which the map of
-- the source is filled.
unfoldable pub handle_generate_presigned_upload_url :
    (List String → String)
    → (String → List String → Option String)
    → String
    → String
    → List String
    → Answer (List (String × PresignedUrl))
handle_generate_presigned_upload_url complain generate uid stamp doc_types =
    if is_missing doc_types
    then bad_request "missing types parameter"
    else elim (slice_diff doc_types valid_doc_types) [
      | [] ↦ presign_answer (presigned generate uid stamp doc_types)
      | x ∷ xs ↦ bad_request (complain (x ∷ xs))
    ]
