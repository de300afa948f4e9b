-- ===== src/Tests/Records.antt =====
-- Records of a namespace and their pages.
use oan_protocol_common.Base.{
  String, ◌≡◌, refl, true, Option, none, some, [], ◌∷◌, string_eq, length, take, drop, ok,
}
use oan_protocol_common.BTreeMap.{get, IsSorted}
use oan_protocol_common.Storage.Limits.{
  default_limits, normalize_limit, validate, append_all, append_namespace_item,
}
use oan_protocol_common.Storage.Records.{
  Records, Stored, NamespacePage, rows_of, behind, in_order, is_after, parse_all,
  read_namespace_page,
}
use oan_protocol_common.Storage.Records.Paging.{rest_of, read_namespace_page_lem}

abbrev stored : String → String → Stored
stored value_json updated_at = record { value_json = value_json; updated_at = updated_at }

-- The later key has the earlier time.
abbrev sample_records : Records
sample_records = ("n", ("a", stored "1" "2026-01-02") ∷ ("b", stored "2" "2026-01-01") ∷ []) ∷ []

abbrev from_str : String → Option String
from_str s = some s

-- the page of one record, which is the one of the earlier time
abbrev sample_page : NamespacePage String
sample_page = record {
  items = "2" ∷ [];
  next_cursor = some (record { updated_at = "2026-01-01"; record_key = "b" });
  has_more = true;
}

sample_sorted : IsSorted (rows_of "n" sample_records)
unfolding get
sample_sorted = ((refl, tt), (tt, tt))

sample_read :
    read_namespace_page from_str sample_records "n" none (some 1) default_limits ≡ ok sample_page
unfolding read_namespace_page normalize_limit validate append_all append_namespace_item in_order
    is_after get
sample_read = refl

read_namespace_page_lem_example :
    (parse_all from_str
        (take (length sample_page.items) (behind none (in_order (rows_of "n" sample_records))))
      ≡ ok sample_page.items)
    × (drop (length sample_page.items) (behind none (in_order (rows_of "n" sample_records)))
        ≡ rest_of sample_page.next_cursor (in_order (rows_of "n" sample_records)))
read_namespace_page_lem_example =
    read_namespace_page_lem from_str default_limits sample_records "n" none (some 1) sample_page
      sample_sorted sample_read
