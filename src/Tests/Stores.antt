-- ===== src/Tests/Stores.antt =====
-- A table of jobs that two workers lease from, and a page of records.
use oan_protocol_common.Base.{
  ◌+◌, ◌*◌, ◌≤◌, String, ◌≡◌, ◌≢◌, refl, Option, none, some, List, [], ◌∷◌, ok, length, All, leb→le,
}
use oan_protocol_common.Base.Int.{pos}
use oan_protocol_common.BTreeMap.{get, insert}
use oan_protocol_common.Storage.Jobs.{
  Table, Row, lease_ready_jobs, lease_each, select_ready, sort_rows, insert_row,
  mark_leased_job_succeeded, LeasedJob, ready, leased, succeeded,
}
use oan_protocol_common.Storage.Jobs.Leases.{lease_exclusive, succeeded_stays}
use oan_protocol_common.Storage.Limits.{
  default_limits, validate, normalize_limit, Record, PageState, append_namespace_item, append_all,
}
use oan_protocol_common.Storage.Limits.Pages.{append_all-Adds, bytes_of}

-- a payload is its text
abbrev read_text : String → Option String
read_text s = some s

abbrev job_row : Row
job_row = record {
  payload_json = "p";
  status = ready;
  attempt_count = 0;
  lease_owner = none;
  lease_expires_at = none;
  next_attempt_at = "2026-01-01";
  last_error = none;
  created_at = "2026-01-01";
  updated_at = "2026-01-01";
}

abbrev leased_row : Row
leased_row = record {
  payload_json = "p";
  status = leased;
  attempt_count = 0;
  lease_owner = some "w1";
  lease_expires_at = some "2026-01-03";
  next_attempt_at = "2026-01-01";
  last_error = none;
  created_at = "2026-01-01";
  updated_at = "2026-01-01";
}

abbrev one_job : LeasedJob String
one_job = record { job_key = "job"; payload = "p"; attempt_count = 0 }

first_lease :
    lease_ready_jobs read_text
      (("job", job_row) ∷ [])
      "w1"
      (pos 10)
      "2026-01-02"
      "2026-01-03"
      "2026-01-01"
    ≡ some (one_job ∷ [], ("job", leased_row) ∷ [])
unfolding lease_ready_jobs lease_each select_ready sort_rows insert_row get insert
first_lease = refl

second_lease :
    lease_ready_jobs read_text
      (("job", leased_row) ∷ [])
      "w2"
      (pos 10)
      "2026-01-02"
      "2026-01-04"
      "2026-01-02"
    ≡ some ([], ("job", leased_row) ∷ [])
unfolding lease_ready_jobs lease_each select_ready sort_rows insert_row get insert
second_lease = refl

lease_exclusive_example :
    All {A = LeasedJob String}
      (λ j. All {A = LeasedJob String} (λ j'. j.job_key ≢ j'.job_key) [])
      (one_job ∷ [])
lease_exclusive_example =
    lease_exclusive read_text (("job", job_row) ∷ []) "w1" "2026-01-02" "2026-01-03" "2026-01-01"
      (pos 10) (one_job ∷ []) (("job", leased_row) ∷ []) "w2" "2026-01-02" "2026-01-04" "2026-01-02"
      (pos 10) [] (("job", leased_row) ∷ []) (tt, tt) first_lease second_lease refl

abbrev done_table : Table
done_table = mark_leased_job_succeeded (("job", leased_row) ∷ []) "job" "2026-01-02"

abbrev done_row : Row
done_row = record {
  payload_json = "p";
  status = succeeded;
  attempt_count = 0;
  lease_owner = none;
  lease_expires_at = none;
  next_attempt_at = "2026-01-01";
  last_error = none;
  created_at = "2026-01-01";
  updated_at = "2026-01-02";
}

done_lease :
    lease_ready_jobs read_text done_table "w2" (pos 10) "2026-01-09" "2026-01-10" "2026-01-09"
    ≡ some ([], done_table)
unfolding lease_ready_jobs lease_each select_ready sort_rows insert_row get insert
    mark_leased_job_succeeded
done_lease = refl

done_found : get "job" done_table ≡ some done_row
unfolding get insert mark_leased_job_succeeded
done_found = refl

succeeded_stays_example :
    (get "job" done_table ≡ some done_row) × All {A = LeasedJob String} (λ j. "job" ≢ j.job_key) []
unfolding get insert mark_leased_job_succeeded
succeeded_stays_example =
    succeeded_stays read_text done_table "w2" "2026-01-09" "2026-01-10" "2026-01-09" (pos 10) []
      done_table "job" done_row (tt, tt) done_lease done_found refl

limit_given : normalize_limit default_limits (some 500) ≡ ok 500
unfolding normalize_limit validate
limit_given = refl

abbrev empty_page : PageState String
empty_page = record { items = []; total_bytes = 0; next_cursor = none }

abbrev record_of : String → Record
record_of text = record { updated_at = "2026-01-01"; record_key = "k"; value_json = text }

abbrev two_records : List Record
two_records = record_of "12" ∷ record_of "345" ∷ []

abbrev full_page : PageState String
full_page = record {
  items = "12" ∷ "345" ∷ [];
  total_bytes = 5;
  next_cursor = some (record { updated_at = "2026-01-01"; record_key = "k" });
}

page_filled : append_all read_text default_limits empty_page two_records ≡ ok full_page
unfolding append_all append_namespace_item
page_filled = refl

append_all-Adds_example :
    (5 ≡ 0 + bytes_of two_records) × (5 ≤ 8 * 1024 * 1024) × (2 ≡ 0 + length two_records)
append_all-Adds_example =
    append_all-Adds read_text default_limits (leb→le _ _ refl) empty_page two_records full_page
      (leb→le _ _ refl) page_filled
