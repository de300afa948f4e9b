-- ===== src/Publication.antt =====
-- The event that asks a CDN to publish a package (crates/oan-publication-events/src/lib.rs).
use oan_protocol_common.Base.{
  String, ◌≡◌, ◌↔◌, refl, false, ◌!=◌, string_eq, Result, ok, ◌>>◌, fail_if, fail_if-eq-ok,
  fail_if-last,
}
use oan_protocol_common.Base.Int.{ℤ, pos, leb_ℤ}
use oan_protocol_common.Text.{is_blank}
use oan_protocol_common.Chrono.{Time}

abbrev cdn_publish_requested_event_type : String
cdn_publish_requested_event_type = "cdn_publish_requested"

abbrev cdn_publish_event_schema_version : String
cdn_publish_event_schema_version = "1"

pub record CdnPublishRequestedEvent : Type 0 where
  pub event_type : String
  pub schema_version : String
  pub job_key : String
  pub resource_did : String
  pub package_version : String
  pub publication_cursor : ℤ
  pub root_did : String
  pub package_hash : String
  pub did_document_hash : String
  pub metadata_hash : String
  pub created_at : Time

pub record CdnPublishRequestedEventInput : Type 0 where
  pub job_key : String
  pub resource_did : String
  pub package_version : String
  pub publication_cursor : ℤ
  pub root_did : String
  pub package_hash : String
  pub did_document_hash : String
  pub metadata_hash : String
  pub created_at : Time

-- `CdnPublishRequestedEvent::new`
unfoldable pub new_event : CdnPublishRequestedEventInput → CdnPublishRequestedEvent
new_event input = record {
  event_type = cdn_publish_requested_event_type;
  schema_version = cdn_publish_event_schema_version;
  job_key = input.job_key;
  resource_did = input.resource_did;
  package_version = input.package_version;
  publication_cursor = input.publication_cursor;
  root_did = input.root_did;
  package_hash = input.package_hash;
  did_document_hash = input.did_document_hash;
  metadata_hash = input.metadata_hash;
  created_at = input.created_at;
}

-- `CdnPublishRequestedEvent::validate`; `is_blank` is `trim().is_empty()`.
unfoldable pub validate_event : CdnPublishRequestedEvent → Result String (Unit {0})
validate_event self = do
  fail_if (self.event_type != cdn_publish_requested_event_type) "unsupported_cdn_publish_event_type"
  fail_if (self.schema_version != cdn_publish_event_schema_version)
      "unsupported_cdn_publish_event_schema"
  fail_if (is_blank self.job_key) "empty_job_key"
  fail_if (is_blank self.resource_did) "empty_resource_did"
  fail_if (is_blank self.package_version) "empty_package_version"
  fail_if (leb_ℤ self.publication_cursor (pos 0)) "invalid_publication_cursor"
  fail_if (is_blank self.root_did) "empty_root_did"
  fail_if (is_blank self.package_hash) "empty_package_hash"
  fail_if (is_blank self.did_document_hash) "empty_did_document_hash"
  fail_if (is_blank self.metadata_hash) "empty_metadata_hash"

-- A text that is not blank.
abbrev Said : String → Type 0
Said s = is_blank s ≡ false

-- The texts of an input are not blank and its cursor is positive.
abbrev IsComplete : CdnPublishRequestedEventInput → Type 0
IsComplete input =
    Said input.job_key
    × Said input.resource_did
    × Said input.package_version
    × (leb_ℤ input.publication_cursor (pos 0) ≡ false)
    × Said input.root_did
    × Said input.package_hash
    × Said input.did_document_hash
    × Said input.metadata_hash

validate_event_sound :
    (input : CdnPublishRequestedEventInput)
    → validate_event (new_event input) ≡ ok tt
    → IsComplete input
unfolding validate_event new_event
validate_event_sound input h =
    let (a, h1) = (fail_if-eq-ok _ "empty_job_key" _ tt).0 h in
    let (b, h2) = (fail_if-eq-ok _ "empty_resource_did" _ tt).0 h1 in
    let (c, h3) = (fail_if-eq-ok _ "empty_package_version" _ tt).0 h2 in
    let (d, h4) = (fail_if-eq-ok _ "invalid_publication_cursor" _ tt).0 h3 in
    let (e, h5) = (fail_if-eq-ok _ "empty_root_did" _ tt).0 h4 in
    let (f, h6) = (fail_if-eq-ok _ "empty_package_hash" _ tt).0 h5 in
    let (g, h7) = (fail_if-eq-ok _ "empty_did_document_hash" _ tt).0 h6 in
    (a, b, c, d, e, f, g, (fail_if-last _ "empty_metadata_hash").0 h7)

validate_event_complete :
    (input : CdnPublishRequestedEventInput)
    → IsComplete input
    → validate_event (new_event input) ≡ ok tt
unfolding validate_event new_event
validate_event_complete input (a, b, c, d, e, f, g, k) =
    rw a (rw b (rw c (rw d (rw e (rw f (rw g (rw k refl)))))))

validate-new :
    (input : CdnPublishRequestedEventInput)
    → (validate_event (new_event input) ≡ ok tt) ↔ IsComplete input
validate-new input = (validate_event_sound input, validate_event_complete input)
