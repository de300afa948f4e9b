-- ===== src/Storage/Jobs.antt =====
-- The tables of leased jobs (crates/oan-storage/src/lib.rs, `SqliteJsonStore`). A table is its rows
-- by their primary key; the statements are what SQLite does on them, and a transaction that fails
-- leaves the table as it was. A time is a text, compared as SQLite compares texts.
pub mod Leases
pub mod Batches
use Prim.Native.Nat.{Ordering}
use Prim.Native.String.{compare}
use oan_protocol_common.Base.{
  ℕ, zero, suc, ◌+◌, String, Bool, true, false, ◌&&◌, ◌||◌, Option, none, some, List, [], ◌∷◌, any,
  length, take, retain, ◌==◌, string_eq, if◌then◌else◌, Result, ok, err, ◌>>=◌, ok_or,
}
use oan_protocol_common.Base.Int.{ℤ, pos, negsuc}
use oan_protocol_common.BTreeMap.{BTreeMap, get, insert}

-- the texts of the column `status`
pub data Status : Type 0 where
  ready leased retry_wait succeeded : Status

pub record Row : Type 0 where
  pub payload_json : String
  pub status : Status
  pub attempt_count : ℕ
  pub lease_owner : Option String
  pub lease_expires_at : Option String
  pub next_attempt_at : String
  pub last_error : Option String
  pub created_at : String
  pub updated_at : String

abbrev pub Table : Type 0
Table = BTreeMap Row

-- `<=` on texts
abbrev pub str_leb : String → String → Bool
str_leb a b = elim (compare a b) [ Ordering.gt ↦ false | _ ↦ true ]

abbrev enqueued : Option Row → String → String → String → Row
enqueued none payload_json next_attempt_at clock = record {
  payload_json = payload_json;
  status = ready;
  attempt_count = 0;
  lease_owner = none;
  lease_expires_at = none;
  next_attempt_at = next_attempt_at;
  last_error = none;
  created_at = clock;
  updated_at = clock;
}
enqueued (some row) payload_json next_attempt_at clock = record {
  payload_json = payload_json;
  status = ready;
  attempt_count = row.attempt_count;
  lease_owner = none;
  lease_expires_at = none;
  next_attempt_at = next_attempt_at;
  last_error = none;
  created_at = row.created_at;
  updated_at = clock;
}

-- `enqueue_leased_job`, with the payload's JSON text and the time of the clock
unfoldable enqueue_leased_job : Table → String → String → String → String → Table
enqueue_leased_job table job_key payload_json next_attempt_at clock =
    insert job_key (enqueued (get job_key table) payload_json next_attempt_at clock) table

abbrev pub is_expired : String → Option String → Bool
is_expired now none = false
is_expired now (some expires_at) = str_leb expires_at now

-- the condition of `lease_ready_jobs`
abbrev pub can_lease : String → Status → Row → Bool
can_lease now ready row = true
can_lease now leased row = is_expired now row.lease_expires_at
can_lease now retry_wait row = str_leb row.next_attempt_at now
can_lease now succeeded row = false

abbrev pub is_leasable : String → Row → Bool
is_leasable now row = can_lease now row.status row

-- `ORDER BY next_attempt_at, created_at, job_key`
abbrev pub row_before : String × Row → String × Row → Bool
row_before a b = elim (compare a.1.next_attempt_at b.1.next_attempt_at) [
  | Ordering.lt ↦ true
  | Ordering.gt ↦ false
  | Ordering.eq ↦ elim (compare a.1.created_at b.1.created_at) [
    | Ordering.lt ↦ true
    | Ordering.gt ↦ false
    | Ordering.eq ↦ str_leb a.0 b.0
  ]
]

unfoldable pub insert_row : String × Row → List (String × Row) → List (String × Row)
insert_row e [] = e ∷ []
insert_row e (f ∷ l) = let later = f ∷ insert_row e l in if row_before e f then e ∷ f ∷ l else later

unfoldable pub sort_rows : List (String × Row) → List (String × Row)
unfolding insert_row
sort_rows [] = []
sort_rows (e ∷ l) = insert_row e (sort_rows l)

-- `LIMIT`; a negative one is none
abbrev pub limited : ℤ → List (String × Row) → List (String × Row)
limited (pos n) l = take n l
limited (negsuc n) l = l

unfoldable pub select_ready : Table → ℤ → String → List (String × Row)
select_ready table limit now = limited limit (sort_rows (retain (λ e. is_leasable now e.1) table))

pub record LeasedJob {ℓ} (T : Type ℓ) : Type ℓ where
  pub job_key : String
  pub payload : T
  pub attempt_count : ℕ

-- the row as the update statement leaves it, if its condition holds
abbrev pub lease_if : Bool → Row → String → String → String → Option Row
lease_if false row worker_id lease_expires_at clock = none
lease_if true row worker_id lease_expires_at clock = some (record {
  payload_json = row.payload_json;
  status = leased;
  attempt_count = row.attempt_count;
  lease_owner = some worker_id;
  lease_expires_at = some lease_expires_at;
  next_attempt_at = row.next_attempt_at;
  last_error = row.last_error;
  created_at = row.created_at;
  updated_at = clock;
})

abbrev pub updated : Option Row → String → String → String → String → Option Row
updated none worker_id now lease_expires_at clock = none
updated (some row) worker_id now lease_expires_at clock =
    lease_if (is_leasable now row) row worker_id lease_expires_at clock

-- `if result.rows_affected() == 0 { continue; }`
abbrev unless_affected {ℓ} : {A : Type ℓ} → Option Row → A → (Row → A) → A
unless_affected none skip lease = skip
unless_affected (some row) skip lease = lease row

-- The payload is read from its JSON text by `from_str`, a failure being `none`.
module _ {T : Type 0} (from_str : String → Option T) where
  -- `leased.push(...)` before the rest of the loop
  abbrev pub leased_job :
      String
      → Row
      → Option T
      → Option (List (LeasedJob T) × Table)
      → Option (List (LeasedJob T) × Table)
  leased_job job_key row none rest = none
  leased_job job_key row (some payload) none = none
  leased_job job_key row (some payload) (some (jobs, table)) = some (
    record { job_key = job_key; payload = payload; attempt_count = row.attempt_count } ∷ jobs,
    table,
  )

  -- the loop over the selected rows
  unfoldable pub lease_each :
      String
      → String
      → String
      → String
      → List (String × Row)
      → Table
      → Option (List (LeasedJob T) × Table)
  lease_each worker_id now lease_expires_at clock [] table = some ([], table)
  lease_each worker_id now lease_expires_at clock ((job_key, row) ∷ rest) table =
      unless_affected (updated (get job_key table) worker_id now lease_expires_at clock)
        (lease_each worker_id now lease_expires_at clock rest table)
        λ new.
          leased_job job_key row (from_str row.payload_json)
            (lease_each worker_id now lease_expires_at clock rest (insert job_key new table))

  -- `lease_ready_jobs`: the jobs and the new table, or `none` where a payload is refused
  unfoldable pub lease_ready_jobs :
      Table → String → ℤ → String → String → String → Option (List (LeasedJob T) × Table)
  lease_ready_jobs table worker_id limit now lease_expires_at clock =
      lease_each worker_id now lease_expires_at clock (select_ready table limit now) table

abbrev pub finished : String → Row → Row
finished clock row = record {
  payload_json = row.payload_json;
  status = succeeded;
  attempt_count = row.attempt_count;
  lease_owner = none;
  lease_expires_at = none;
  next_attempt_at = row.next_attempt_at;
  last_error = none;
  created_at = row.created_at;
  updated_at = clock;
}

abbrev update : Option Row → String → (Row → Row) → Table → Table
update none job_key change table = table
update (some row) job_key change table = insert job_key (change row) table

unfoldable pub mark_leased_job_succeeded : Table → String → String → Table
mark_leased_job_succeeded table job_key clock =
    update (get job_key table) job_key (finished clock) table

abbrev waiting : String → Option String → String → Row → Row
waiting next_attempt_at last_error clock row = record {
  payload_json = row.payload_json;
  status = retry_wait;
  attempt_count = row.attempt_count + 1;
  lease_owner = none;
  lease_expires_at = none;
  next_attempt_at = next_attempt_at;
  last_error = last_error;
  created_at = row.created_at;
  updated_at = clock;
}

unfoldable pub mark_leased_job_retry : Table → String → String → Option String → String → Table
mark_leased_job_retry table job_key next_attempt_at last_error clock =
    update (get job_key table) job_key (waiting next_attempt_at last_error clock) table
