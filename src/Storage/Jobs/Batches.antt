-- ===== src/Storage/Jobs/Batches.antt =====
-- Batches of leased jobs: `mark_leased_jobs_succeeded` in chunks of 500 keys, and `mark_leased_jobs_retry`.
use oan_protocol_common.Base.{
  ℕ, zero, suc, ◌+◌, ◌≤◌, String, ◌≡◌, refl, sym, ap, ◌∙◌, Bool, true, false, ◌||◌, some, List, [],
  ◌∷◌, ◌++◌, any, length, take, drop, retain, ◌==◌, string_eq, if◌then◌else◌, arith,
}
use oan_protocol_common.BTreeMap.{contains_key}
use oan_protocol_common.Storage.Jobs.{Row, Table, finished, mark_leased_job_retry}

-- `job_key IN (...)`
abbrev is_in : List String → String → Bool
is_in keys key = any (λ k. k == key) keys

abbrev finish_if : Bool → String → Row → Row
finish_if true clock row = finished clock row
finish_if false clock row = row

-- the update of the rows whose keys are listed
abbrev finish_in : List String → String → Table → Table
finish_in keys clock [] = []
finish_in keys clock ((key, row) ∷ table) =
    (key, finish_if (is_in keys key) clock row) ∷ finish_in keys clock table

-- the number of these rows
abbrev rows_affected : List String → Table → ℕ
rows_affected keys table = length (retain (λ e. is_in keys e.0) table)

abbrev add_affected : ℕ → Table × ℕ → Table × ℕ
add_affected n (table, affected) = (table, n + affected)

-- the loop over the chunks, with one unit of fuel a chunk
unfoldable finish_chunks : ℕ → Table → List String → String → Table × ℕ
finish_chunks zero table job_keys clock = (table, 0)
finish_chunks (suc fuel) table [] clock = (table, 0)
finish_chunks (suc fuel) table (key ∷ job_keys) clock =
    add_affected (rows_affected (take 500 (key ∷ job_keys)) table) (
      finish_chunks fuel (finish_in (take 500 (key ∷ job_keys)) clock table)
        (drop 500 (key ∷ job_keys)) clock)

unfoldable mark_leased_jobs_succeeded : Table → List String → String → Table × ℕ
unfolding finish_chunks
mark_leased_jobs_succeeded table job_keys clock =
    finish_chunks (length job_keys) table job_keys clock

unfoldable mark_leased_jobs_retry : Table → List (String × String) → String → String → Table × ℕ
mark_leased_jobs_retry table [] next_attempt_at clock = (table, 0)
mark_leased_jobs_retry table ((job_key, last_error) ∷ jobs) next_attempt_at clock =
    add_affected (if contains_key job_key table then 1 else 0) (
      mark_leased_jobs_retry
        (mark_leased_job_retry table job_key next_attempt_at (some last_error) clock) jobs
        next_attempt_at clock)

is_in-append :
    (xs ys : List String) (key : String) → is_in (xs ++ ys) key ≡ (is_in xs key || is_in ys key)
is_in-append [] ys key = refl
is_in-append (x ∷ xs) ys key = ground (arith, is_in-append xs ys key)

finish_if-twice :
    (a b : Bool) (clock : String) (row : Row)
    → finish_if b clock (finish_if a clock row) ≡ finish_if (a || b) clock row
finish_if-twice true true clock row = refl
finish_if-twice true false clock row = refl
finish_if-twice false b clock row = refl

-- Two updates are one with the keys of both.
finish_in-append :
    (xs ys : List String) (clock : String) (table : Table)
    → finish_in ys clock (finish_in xs clock table) ≡ finish_in (xs ++ ys) clock table
finish_in-append xs ys clock [] = refl
finish_in-append xs ys clock ((key, row) ∷ table) = λ i.
    (
      key,
      (finish_if-twice (is_in xs key) (is_in ys key) clock row
            ∙ ap (λ b. finish_if b clock row) (sym (is_in-append xs ys key)))
          i,
    )
    ∷ finish_in-append xs ys clock table i

take-drop : (n : ℕ) (l : List String) → take n l ++ drop n l ≡ l
take-drop zero l = refl
take-drop (suc n) [] = refl
take-drop (suc n) (x ∷ l) = ap (λ m. x ∷ m) (take-drop n l)

length-drop : (n : ℕ) (l : List String) → length (drop n l) ≤ length l
length-drop zero l = omega arith
length-drop (suc n) [] = omega arith
length-drop (suc n) (x ∷ l) = omega (arith, length-drop n l)

finish_in-nil : (clock : String) (table : Table) → finish_in [] clock table ≡ table
finish_in-nil clock [] = refl
finish_in-nil clock (e ∷ table) = ap (λ t. e ∷ t) (finish_in-nil clock table)

add_affected-table : (n : ℕ) (r : Table × ℕ) → (add_affected n r).0 ≡ r.0
add_affected-table n (table, m) = refl

finish_chunks_lem :
    (fuel : ℕ) (table : Table) (job_keys : List String) (clock : String)
    → length job_keys ≤ fuel
    → (finish_chunks fuel table job_keys clock).0 ≡ finish_in job_keys clock table
unfolding finish_chunks
finish_chunks_lem zero table [] clock h = sym (finish_in-nil clock table)
finish_chunks_lem zero table (k ∷ job_keys) clock h = absurd (omega arith)
finish_chunks_lem (suc fuel) table [] clock h = sym (finish_in-nil clock table)
finish_chunks_lem (suc fuel) table (key ∷ job_keys) clock h =
    add_affected-table (rows_affected (key ∷ take 499 job_keys) table) (
      finish_chunks fuel (finish_in (key ∷ take 499 job_keys) clock table) (drop 499 job_keys)
        clock)
    ∙ finish_chunks_lem fuel (finish_in (key ∷ take 499 job_keys) clock table) (drop 499 job_keys)
        clock (omega (arith, length-drop 499 job_keys))
    ∙ finish_in-append (key ∷ take 499 job_keys) (drop 499 job_keys) clock table
    ∙ ap (λ l. finish_in (key ∷ l) clock table) (take-drop 499 job_keys)

mark_leased_jobs_succeeded_lem :
    (table : Table) (job_keys : List String) (clock : String)
    → (mark_leased_jobs_succeeded table job_keys clock).0 ≡ finish_in job_keys clock table
unfolding mark_leased_jobs_succeeded
mark_leased_jobs_succeeded_lem table job_keys clock =
    finish_chunks_lem (length job_keys) table job_keys clock (omega arith)
