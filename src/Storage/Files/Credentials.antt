-- ===== src/Storage/Files/Credentials.antt =====
-- What is read of the credentials that are written.
use oan_protocol_common.Base.{
  String, ◌≡◌, refl, ap, ◌∙◌, Option, some, Result, ok, ◌==◌, string_eq, eq_refl, if◌then◌else◌,
  Bool-cases, inl, inr,
}
use oan_protocol_common.BTreeMap.{get, insert}
use oan_protocol_common.BTreeMap.Laws.{get-insert}
use oan_protocol_common.Storage.Files.{
  FileError, Files, credential_path, registration_path, node_authorization, read, write,
  write_credential, read_credential, write_resource_registration, read_resource_registration,
  write_node_authorization, read_node_authorization,
}

module _ {T : Type 0} (to_text : T → String) (from_text : String → Option T)
    (dimension issuer subject id dimension' issuer' subject' id' : String) where
  -- what the first names read after a credential is written under them and then another one
  -- under the second names
  abbrev pub read_after : Files → T → T → Result FileError T
  read_after files first second =
      read_credential to_text from_text
        (write_credential to_text from_text
          (write_credential to_text from_text files dimension issuer subject id first) dimension'
          issuer' subject' id' second)
        dimension issuer subject id

module _ {T : Type 0} (to_text : T → String) (from_text : String → Option T)
    (text_back : (v : T) → from_text (to_text v) ≡ some v) where
  get-insert_self :
      (path text : String) (files : Files) → get path (insert path text files) ≡ some text
  get-insert_self path text files =
      get-insert path path text files
      ∙ ap (λ b. if b then some text else get path files) (eq_refl path)

  read-write :
      (files : Files) (path : String) (v : T)
      → read to_text from_text (write to_text from_text files path v) path ≡ ok v
  unfolding read write
  read-write files path v = rw (get-insert_self path (to_text v) files) (rw (text_back v) refl)

  -- A file keeps what it has when the same is written to another, or to it again.
  read-rewrite :
      (files : Files) (path other : String) (v : T)
      → read to_text from_text files path ≡ ok v
      → read to_text from_text (write to_text from_text files other v) path ≡ ok v
  unfolding read write
  read-rewrite files path other v h = elim (Bool-cases (other == path)) [
    | inl same ↦ rw (get-insert other path (to_text v) files) (rw same (rw (text_back v) refl))
    | inr apart ↦ rw (get-insert other path (to_text v) files) (rw apart h)
  ]

  -- The registration that is written for a resource is read back from both of its files.
  pub read-write_resource_registration :
      (files : Files) (resource_did : String) (credential : T)
      → (read_resource_registration to_text from_text
            (write_resource_registration to_text from_text files resource_did credential)
            resource_did
          ≡ ok credential)
        × (read_credential to_text from_text
              (write_resource_registration to_text from_text files resource_did credential)
              "resource-registration"
              "registrar"
              resource_did
              "latest"
            ≡ ok credential)
  unfolding read_resource_registration write_resource_registration read_credential write_credential
  read-write_resource_registration files did credential = (
    read-write _ (registration_path did) credential,
    read-rewrite _ (credential_path "resource-registration" "registrar" did "latest")
        (registration_path did) credential (read-write files _ credential),
  )

  read-write_node_authorization :
      (files : Files) (credential : T)
      → (read_node_authorization to_text from_text
            (write_node_authorization to_text from_text files credential)
          ≡ ok credential)
        × (read_credential to_text from_text
              (write_node_authorization to_text from_text files credential)
              "node-authorization"
              "root"
              "self"
              "latest"
            ≡ ok credential)
  unfolding read_node_authorization write_node_authorization read_credential write_credential
  read-write_node_authorization files credential = (
    read-write _ node_authorization credential,
    read-rewrite _ (credential_path "node-authorization" "root" "self" "latest") node_authorization
        credential (read-write files _ credential),
  )
