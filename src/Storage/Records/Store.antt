-- ===== src/Storage/Records/Store.antt =====
-- What is read of the records that are written.
use oan_protocol_common.Base.{
  String, ◌≡◌, refl, ap, ◌&&◌, Option, some, ◌==◌, string_eq, eq_iff, Bool-cases, inl, inr,
  if◌then◌else◌, ok, ok_or, ◌>>=◌,
}
use oan_protocol_common.BTreeMap.{get}
use oan_protocol_common.BTreeMap.Laws.{get-insert}
use oan_protocol_common.Storage.Limits.{json}
use oan_protocol_common.Storage.Records.{Records, rows_of, value_of, upsert_json, read_json}

module _ {T : Type 0} (from_str : String → Option T) where
  read_json-upsert :
      (records : Records) (namespace key value_json clock namespace' key' : String)
      → read_json from_str (upsert_json records namespace key value_json clock) namespace' key' ≡ (
          if (namespace == namespace') && (key == key')
          then (ok_or (from_str value_json) json >>= λ value. ok (some value))
          else read_json from_str records namespace' key')
  unfolding read_json upsert_json
  read_json-upsert records ns key v clock ns' key' = elim (Bool-cases (ns == ns')) [
    | inl same ↦ rw (get-insert ns ns' _ records) (
        rw same (
          rw (get-insert key key' _ (rows_of ns records)) (elim (Bool-cases (key == key')) [
            | inl this ↦ rw this refl
            | inr other ↦ rw other (
                ap (λ n. value_of from_str (get key' (rows_of n records))) ((eq_iff ns ns').0 same))
          ])))
    | inr apart ↦ rw (get-insert ns ns' _ records) (rw apart refl)
  ]
