-- ===== src/Tests/Files.antt =====
-- Files of credentials and events of publication.
use Prim.Native.Char.{char}
use oan_protocol_common.Base.{Char, String, ◌≡◌, refl, inl, inr, arith, List, Option, some, ok}
use oan_protocol_common.Base.Int.{pos}
use oan_protocol_common.Text.{is_blank, replace, ends_with}
use oan_protocol_common.BTreeMap.{get, insert}
use oan_protocol_common.Storage.Files.{
  credential_path, storage_safe_name, did_to_file_name, join, read, write, read_credential,
  write_credential, read_resource_registration, write_resource_registration,
}
use oan_protocol_common.Storage.Files.Names.{Underscored, Alike}
use oan_protocol_common.Storage.Files.Paths.{AreAlike}
use oan_protocol_common.Storage.Files.Credentials.{read_after, read-write_resource_registration}
use oan_protocol_common.Publication.{CdnPublishRequestedEventInput, new_event, validate_event}

-- a value that is its text
abbrev to_text : String → String
to_text s = s

abbrev from_text : String → Option String
from_text s = some s

text_back : (s : String) → from_text (to_text s) ≡ some s
text_back s = refl

safe_names : storage_safe_name "did:oan:a/b" ≡ "did_oan_a_b"
unfolding storage_safe_name
safe_names = refl

file_name : did_to_file_name "did:oan:a" ≡ "did_oan_a.json"
unfolding did_to_file_name replace
file_name = refl

path_of :
    credential_path "audit" "did:oan:a" ".." "1"
    ≡ "credentials/by-dimension/audit/did_oan_a/../1.json"
unfolding credential_path storage_safe_name join ends_with
path_of = refl

colon : (Underscored (char 58 tt)) × (Underscored (char 95 tt))
colon =
    (inr (inr (inl (omega arith, omega arith))), inr (inr (inr (inl (omega arith, omega arith)))))

same_file : Alike "did:oan:a" "did_oan_a"
same_file = (
  inl refl,
  (
    inl refl,
    (inl refl, (inr colon, (inl refl, (inl refl, (inl refl, (inr colon, (inl refl, tt))))))),
  ),
)

abbrev SameNames : Type 0
SameNames = AreAlike "audit" "did:oan:a" "s" "1" "audit" "did_oan_a" "s" "1"

alike_names : SameNames
alike_names = (
  (inl refl, (inl refl, (inl refl, (inl refl, (inl refl, tt))))),
  same_file,
  (inl refl, tt),
  (inl refl, tt),
)

first_lost :
    read_after to_text from_text "audit" "did:oan:a" "s" "1" "audit" "did_oan_a" "s" "1" List.[]
      "first" "second"
    ≡ ok "second"
unfolding read_credential write_credential credential_path storage_safe_name join ends_with read
    write get insert
first_lost = refl

read-write_resource_registration_example :
    (read_resource_registration to_text from_text
        (write_resource_registration to_text from_text List.[] "did:oan:a" "credential")
        "did:oan:a"
      ≡ ok "credential")
    × (read_credential to_text from_text
          (write_resource_registration to_text from_text List.[] "did:oan:a" "credential")
          "resource-registration"
          "registrar"
          "did:oan:a"
          "latest"
        ≡ ok "credential")
read-write_resource_registration_example =
    read-write_resource_registration to_text from_text text_back List.[] "did:oan:a" "credential"

abbrev sample_input : CdnPublishRequestedEventInput
sample_input = record {
  job_key = "did:oan:a:1";
  resource_did = "did:oan:a";
  package_version = "1";
  publication_cursor = pos 1;
  root_did = "did:oan:root";
  package_hash = "p";
  did_document_hash = "d";
  metadata_hash = "m";
  created_at = pos 0;
}

event_accepted : validate_event (new_event sample_input) ≡ ok tt
unfolding validate_event new_event is_blank
event_accepted = refl
