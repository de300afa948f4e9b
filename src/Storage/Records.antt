-- ===== src/Storage/Records.antt =====
-- The records of a namespace (crates/oan-storage/src/lib.rs, `SqliteJsonStore`). The table `json_records`
-- is its rows by the two columns of its primary key; the statements are what SQLite does on them, and a
-- time is the text of CURRENT_TIMESTAMP.
pub mod Filters
pub mod Order
pub mod Paging
pub mod Store
use Prim.Native.Nat.{Ordering}
use Prim.Native.String.{compare}
use oan_protocol_common.Base.{
  ℕ, String, Bool, true, false, not, Option, none, some, List, [], ◌∷◌, ◌++◌, any, length, map,
  take, retain, ◌==◌, string_eq, if◌then◌else◌, Result, ok, err, ◌>>=◌, ok_or,
}
use oan_protocol_common.BTreeMap.{BTreeMap, get, insert}
use oan_protocol_common.Storage.Limits.{
  StorageError, json, QueryLimits, normalize_limit, NamespacePageCursor, Record, PageState,
  append_all,
}

-- a row without its key
pub record Stored : Type 0 where
  pub value_json : String
  pub updated_at : String

abbrev pub Records : Type 0
Records = BTreeMap (BTreeMap Stored)

abbrev pub or_empty : Option (BTreeMap Stored) → BTreeMap Stored
or_empty none = []
or_empty (some rows) = rows

-- the rows of a namespace by their keys
abbrev pub rows_of : String → Records → BTreeMap Stored
rows_of namespace records = or_empty (get namespace records)

unfoldable pub upsert_json : Records → String → String → String → String → Records
upsert_json records namespace key value_json clock =
    insert namespace
      (insert key (record { value_json = value_json; updated_at = clock })
        (rows_of namespace records))
      records

unfoldable delete_json : Records → String → String → Records
delete_json records namespace key =
    insert namespace (retain (λ e. not (e.0 == key)) (rows_of namespace records)) records

unfoldable count_namespace : Records → String → ℕ
count_namespace records namespace = length (rows_of namespace records)

unfoldable delete_namespace : Records → String → Records
delete_namespace records namespace = retain (λ e. not (e.0 == namespace)) records

-- `updated_at > ? OR (updated_at = ? AND record_key > ?)` of a row, for the row or cursor before it
unfoldable pub is_after : String → String → Record → Bool
is_after updated_at record_key row = elim (compare updated_at row.updated_at) [
  | Ordering.lt ↦ true
  | Ordering.gt ↦ false
  | Ordering.eq ↦ elim (compare record_key row.record_key) [ Ordering.lt ↦ true | _ ↦ false ]
]

-- `ORDER BY updated_at, record_key`
unfoldable pub insert_record : Record → List Record → List Record
insert_record r [] = r ∷ []
insert_record r (s ∷ l) =
    let later = s ∷ insert_record r l in
    if is_after s.updated_at s.record_key r then later else r ∷ s ∷ l

unfoldable pub in_order : BTreeMap Stored → List Record
unfolding insert_record
in_order [] = []
in_order ((key, row) ∷ rows) =
    insert_record
      (record { updated_at = row.updated_at; record_key = key; value_json = row.value_json })
      (in_order rows)

-- the rows behind a cursor
abbrev pub behind : Option NamespacePageCursor → List Record → List Record
behind none rows = rows
behind (some cursor) rows = retain (is_after cursor.updated_at cursor.record_key) rows

pub record NamespacePage (T : Type 0) : Type 0 where
  pub items : List T
  pub next_cursor : Option NamespacePageCursor
  pub has_more : Bool

abbrev pub exists_behind : Option NamespacePageCursor → List Record → Bool
exists_behind none rows = false
exists_behind (some cursor) rows = any (is_after cursor.updated_at cursor.record_key) rows

module _ {T : Type 0} (from_str : String → Option T) where
  abbrev pub value_of : Option Stored → Result StorageError (Option T)
  value_of none = ok none
  value_of (some row) = ok_or (from_str row.value_json) json >>= λ value. ok (some value)

  unfoldable pub read_json : Records → String → String → Result StorageError (Option T)
  read_json records namespace key = value_of (get key (rows_of namespace records))

  unfoldable pub parse_all : List Record → Result StorageError (List T)
  parse_all [] = ok []
  parse_all (row ∷ rows) = ok_or (from_str row.value_json) json >>= λ value.
      parse_all rows >>= λ values. ok (value ∷ values)

  unfoldable read_namespace : Records → String → Result StorageError (List T)
  unfolding parse_all in_order
  read_namespace records namespace = parse_all (in_order (rows_of namespace records))

  abbrev finish_page : List Record → PageState T → NamespacePage T
  finish_page rows page = record {
    items = page.items;
    next_cursor = if exists_behind page.next_cursor rows then page.next_cursor else none;
    has_more = exists_behind page.next_cursor rows;
  }

  -- The rows are those of one state of the table.
  unfoldable pub read_namespace_page :
      Records
      → String
      → Option NamespacePageCursor
      → Option ℕ
      → QueryLimits
      → Result StorageError (NamespacePage T)
  unfolding in_order
  read_namespace_page records namespace cursor requested_limit limits = do
    limit ← normalize_limit limits requested_limit
    page ←
        append_all from_str limits (record { items = []; total_bytes = 0; next_cursor = none })
          (take limit (behind cursor (in_order (rows_of namespace records))))
    ok (finish_page (in_order (rows_of namespace records)) page)
