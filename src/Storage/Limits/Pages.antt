-- ===== src/Storage/Limits/Pages.antt =====
-- The bounds that the limits keep.
use Prim.Native.String.{len}
use oan_protocol_common.Base.{
  ℕ, ◌+◌, ◌-◌, ◌^◌, ◌≤◌, ◌<◌, String, ◌≡◌, ◌↔◌, ap, false, Option, List, [], ◌∷◌, ◌++◌, arith, ltb,
  length, length-append, Result, ok, err, fail_if-eq-ok, ok_or-eq-ok, >>=-eq-ok,
}
use oan_protocol_common.Storage.Limits.{
  StorageError, record_too_large, page_too_large, json, QueryLimits, validate, bounded,
  normalize_limit, Record, PageState, saturating_add, append_namespace_item, append_all,
}

-- Positive limits, with a default page no larger than the largest.
abbrev AreValid : QueryLimits → Type 0
AreValid limits =
    (1 ≤ limits.default_page_size)
    × (limits.default_page_size ≤ limits.max_page_size)
    × (1 ≤ limits.max_record_bytes)
    × (1 ≤ limits.max_page_bytes)
    × (1 ≤ limits.max_json_scan_entries)

validate_iff : (limits : QueryLimits) → (validate limits ≡ ok tt) ↔ AreValid limits
unfolding validate
validate_iff limits = ground arith

bounded-page :
    (limits : QueryLimits) (limit n : ℕ)
    → AreValid limits
    → bounded limits limit ≡ ok n
    → (1 ≤ n) × (n ≤ limits.max_page_size)
bounded-page limits limit n valid h = ground arith

-- A limit that `normalize_limit` returns is at least 1 and at most the largest page.
pub normalize_limit-page :
    (limits : QueryLimits) (requested : Option ℕ) (n : ℕ)
    → normalize_limit limits requested ≡ ok n
    → (1 ≤ n) × (n ≤ limits.max_page_size)
unfolding normalize_limit
normalize_limit-page limits requested n h =
    let (_, valid, h1) = >>=-eq-ok (validate limits) _ {b = n} h in
    bounded-page limits _ n ((validate_iff limits).0 valid) h1

-- the bytes of rows
unfoldable pub bytes_of : List Record → ℕ
bytes_of [] = 0
bytes_of (row ∷ rows) = len row.value_json + bytes_of rows

not_over : (a b : ℕ) → ltb a b ≡ false → b ≤ a
not_over a b h = ground arith

module _ {T : Type 0} (from_str : String → Option T) (limits : QueryLimits) where
  -- What adding rows to a page keeps: the bytes are the rows', within the limit, and each row
  -- gives an item.
  abbrev Adds : PageState T → List Record → PageState T → Type 0
  Adds page rows next =
      (next.total_bytes ≡ page.total_bytes + bytes_of rows)
      × (next.total_bytes ≤ limits.max_page_bytes)
      × (length next.items ≡ length page.items + length rows)

  module _ (room : limits.max_page_bytes < 2 ^ 64 - 1) where
    abbrev total_in : Result StorageError (PageState T) → ℕ
    total_in (ok page) = page.total_bytes
    total_in (err e) = 0

    abbrev items_in : Result StorageError (PageState T) → ℕ
    items_in (ok page) = length page.items
    items_in (err e) = 0

    append_one :
        (page : PageState T) (row : Record) (next : PageState T)
        → append_namespace_item from_str limits page row ≡ ok next
        → (next.total_bytes ≡ page.total_bytes + len row.value_json)
          × (next.total_bytes ≤ limits.max_page_bytes)
          × (length next.items ≡ length page.items + 1)
    unfolding append_namespace_item
    append_one page row next h =
        let (_, h1) =
          (fail_if-eq-ok (ltb limits.max_record_bytes (len row.value_json))
              (record_too_large (len row.value_json) limits.max_record_bytes) _ next).0
            h in
        let total = saturating_add page.total_bytes (len row.value_json) in
        let (fits, h2) =
          (fail_if-eq-ok (ltb limits.max_page_bytes total)
              (page_too_large total limits.max_page_bytes) _ next).0
            h1 in
        let (item, _, h3) = (ok_or-eq-ok (from_str row.value_json) json _ next).0 h2 in
        let bytes : saturating_add page.total_bytes (len row.value_json) ≡ next.total_bytes =
          ap total_in h3 in
        let items : length (page.items ++ (item ∷ [])) ≡ length next.items = ap items_in h3 in
        (
          omega (arith, bytes, not_over limits.max_page_bytes total fits, room),
          omega (arith, bytes, not_over limits.max_page_bytes total fits),
          omega (arith, items, length-append page.items (item ∷ [])),
        )

    -- Where the largest page is below the maximum of a usize, rows added to a page within its
    -- limit add exactly their bytes, the page stays within its limit, and each row gives an item.
    pub append_all-Adds :
        (page : PageState T) (rows : List Record) (next : PageState T)
        → page.total_bytes ≤ limits.max_page_bytes
        → append_all from_str limits page rows ≡ ok next
        → Adds page rows next
    unfolding append_all bytes_of
    append_all-Adds page [] next fits h = (
      omega (arith, ap total_in h),
      omega (arith, fits, ap total_in h),
      omega (arith, ap items_in h),
    )
    append_all-Adds page (row ∷ rows) next fits h =
        let (middle, one, rest) =
          >>=-eq-ok (append_namespace_item from_str limits page row) _ {b = next} h in
        let (bytes, within, count) = append_one page row middle one in
        let (bytes', within', count') = append_all-Adds middle rows next within rest in
        (omega (arith, bytes, bytes'), within', omega (arith, count, count'))
