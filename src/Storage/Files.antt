-- ===== src/Storage/Files.antt =====
-- The JSON files of a store and the credentials in them (crates/oan-storage/src/lib.rs, `JsonStore` and
-- `LocalCredentialStore`). The files are their texts by the text of their path below the root; every
-- operation of the file system succeeds, but for the reading of a file that is missing.
pub mod Names
pub mod Paths
pub mod Credentials
use Prim.Native.String.{[], ◌∷◌, ◌++◌}
use oan_protocol_common.Base.{
  ℕ, Char, code, String, Bool, true, false, ◌||◌, Option, none, some, nat_beq, if◌then◌else◌,
  Result, ok, err, ◌>>=◌, ok_or,
}
use oan_protocol_common.Text.{is_ascii_alphanumeric, ends_with, replace}
use oan_protocol_common.BTreeMap.{BTreeMap, get, insert}

pub data FileError : Type 0 where
  io json : FileError

abbrev pub Files : Type 0
Files = BTreeMap String

unfoldable pub did_to_file_name : String → String
did_to_file_name did = replace b':' "_" did ++ ".json"

-- the characters that a name keeps
abbrev pub is_kept : Char → Bool
is_kept c =
    is_ascii_alphanumeric c
    || (nat_beq (code c) b'-' || (nat_beq (code c) b'_' || nat_beq (code c) b'.'))

unfoldable pub storage_safe_name : String → String
storage_safe_name [] = ""
storage_safe_name (c ∷ s) = (if is_kept c then c ∷ "" else "_") ++ storage_safe_name s

-- `Path::join` of a part that does not start at the root
unfoldable pub join : String → String → String
join path part = if ends_with "/" path then path ++ part else path ++ ("/" ++ part)

-- `LocalCredentialStore::credential_path`
unfoldable pub credential_path : String → String → String → String → String
credential_path dimension issuer subject credential_id =
    join
      (join
        (join (join "credentials/by-dimension" (storage_safe_name dimension))
          (storage_safe_name issuer))
        (storage_safe_name subject))
      (storage_safe_name credential_id ++ ".json")

abbrev pub node_authorization : String
node_authorization = "credentials/node-authorization.json"

abbrev pub registration_path : String → String
registration_path resource_did =
    join "credentials/resource-registrations" (did_to_file_name resource_did)

-- The text of a value in a file, and the value of a text.
module _ {T : Type 0} (to_text : T → String) (from_text : String → Option T) where
  -- `JsonStore::write`
  unfoldable pub write : Files → String → T → Files
  write files path value = insert path (to_text value) files

  -- `JsonStore::read`
  unfoldable pub read : Files → String → Result FileError T
  read files path = do text ← ok_or (get path files) io; ok_or (from_text text) json

  unfoldable pub write_credential : Files → String → String → String → String → T → Files
  unfolding write
  write_credential files dimension issuer subject credential_id credential =
      write files (credential_path dimension issuer subject credential_id) credential

  unfoldable pub read_credential : Files → String → String → String → String → Result FileError T
  unfolding read
  read_credential files dimension issuer subject credential_id =
      read files (credential_path dimension issuer subject credential_id)

  unfoldable pub write_node_authorization : Files → T → Files
  unfolding write_credential
  write_node_authorization files credential =
      write (write_credential files "node-authorization" "root" "self" "latest" credential)
        node_authorization credential

  unfoldable pub read_node_authorization : Files → Result FileError T
  unfolding read
  read_node_authorization files = read files node_authorization

  unfoldable pub write_resource_registration : Files → String → T → Files
  unfolding write_credential
  write_resource_registration files resource_did credential =
      write
        (write_credential files "resource-registration" "registrar" resource_did "latest"
          credential)
        (registration_path resource_did) credential

  unfoldable pub read_resource_registration : Files → String → Result FileError T
  unfolding read
  read_resource_registration files resource_did = read files (registration_path resource_did)
