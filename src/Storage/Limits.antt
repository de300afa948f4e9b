-- ===== src/Storage/Limits.antt =====
-- The limits of queries and the pages that they bound (crates/oan-storage/src/lib.rs). A `usize` has
-- 64 bits, and `saturating_add` stops at its maximum.
pub mod Pages
use Prim.Native.Nat.{min}
use Prim.Native.String.{len}
use oan_protocol_common.Base.{
  ℕ, ◌+◌, ◌-◌, ◌*◌, ◌^◌, String, Bool, true, false, Option, none, some, List, [], ◌∷◌, ◌++◌, ltb,
  nat_beq, if◌then◌else◌, Result, ok, err, ◌>>=◌, ◌>>◌, fail_if, ok_or,
}

-- the errors of this part; `json` is a text that does not parse
pub data StorageError : Type 0 where
  page_limit_exceeded record_too_large page_too_large : ℕ → ℕ → StorageError
  invalid_query_limits : String → StorageError
  json : StorageError

pub record QueryLimits : Type 0 where
  pub default_page_size : ℕ
  pub max_page_size : ℕ
  pub max_record_bytes : ℕ
  pub max_page_bytes : ℕ
  pub max_json_scan_entries : ℕ

-- `QueryLimits::default`
abbrev pub default_limits : QueryLimits
default_limits = record {
  default_page_size = 100;
  max_page_size = 500;
  max_record_bytes = 1024 * 1024;
  max_page_bytes = 8 * 1024 * 1024;
  max_json_scan_entries = 10_000;
}

unfoldable pub validate : QueryLimits → Result StorageError (Unit {0})
validate limits = do
  fail_if (nat_beq limits.default_page_size 0)
      (invalid_query_limits "default page size must be greater than zero")
  fail_if (nat_beq limits.max_page_size 0)
      (invalid_query_limits "maximum page size must be greater than zero")
  fail_if (ltb limits.max_page_size limits.default_page_size)
      (invalid_query_limits "default page size must not exceed maximum page size")
  fail_if (nat_beq limits.max_record_bytes 0)
      (invalid_query_limits "maximum record bytes must be greater than zero")
  fail_if (nat_beq limits.max_page_bytes 0)
      (invalid_query_limits "maximum page bytes must be greater than zero")
  fail_if (nat_beq limits.max_json_scan_entries 0)
      (invalid_query_limits "maximum json scan entries must be greater than zero")

abbrev unwrap_or : Option ℕ → ℕ → ℕ
unwrap_or none n = n
unwrap_or (some m) n = m

abbrev pub bounded : QueryLimits → ℕ → Result StorageError ℕ
bounded limits limit =
    if nat_beq limit 0
    then ok limits.default_page_size
    else (if ltb limits.max_page_size limit
        then err (page_limit_exceeded limit limits.max_page_size)
        else ok limit)

unfoldable pub normalize_limit : QueryLimits → Option ℕ → Result StorageError ℕ
normalize_limit limits requested = do
  validate limits
  bounded limits (unwrap_or requested limits.default_page_size)

pub record NamespacePageCursor : Type 0 where
  pub updated_at : String
  pub record_key : String

-- a row of the query: the time, the key and the JSON text
pub record Record : Type 0 where
  pub updated_at : String
  pub record_key : String
  pub value_json : String

-- the page while it is built
pub record PageState (T : Type 0) : Type 0 where
  pub items : List T
  pub total_bytes : ℕ
  pub next_cursor : Option NamespacePageCursor

-- `saturating_add`
abbrev pub saturating_add : ℕ → ℕ → ℕ
saturating_add a b = min (a + b) (2 ^ 64 - 1)

module _ {T : Type 0} (from_str : String → Option T) where
  unfoldable pub append_namespace_item :
      QueryLimits → PageState T → Record → Result StorageError (PageState T)
  append_namespace_item limits page row = do
    fail_if (ltb limits.max_record_bytes (len row.value_json))
        (record_too_large (len row.value_json) limits.max_record_bytes)
    let total = saturating_add page.total_bytes (len row.value_json)
    fail_if (ltb limits.max_page_bytes total) (page_too_large total limits.max_page_bytes)
    item ← ok_or (from_str row.value_json) json
    ok (record {
      items = page.items ++ (item ∷ []);
      total_bytes = total;
      next_cursor = some (record { updated_at = row.updated_at; record_key = row.record_key });
    })

  -- the loop over the rows of a page
  unfoldable pub append_all :
      QueryLimits → PageState T → List Record → Result StorageError (PageState T)
  append_all limits page [] = ok page
  append_all limits page (row ∷ rows) =
      append_namespace_item limits page row >>= λ next. append_all limits next rows
