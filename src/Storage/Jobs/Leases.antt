-- ===== src/Storage/Jobs/Leases.antt =====
-- Leases are exclusive until they expire, and finished jobs are not leased.
use mathlib.Core.Path.{subst}
use oan_protocol_common.Base.{
  ℕ, zero, suc, String, ◌≡◌, ◌≢◌, inl, inr, ap, sym, ◌∙◌, Bool, Bool-cases, true, false, Option,
  Option-cases, none, some, List, [], ◌∷◌, arith, eq_iff, take, retain, ◌==◌, string_eq, All,
  All-map,
}
use oan_protocol_common.Base.Int.{ℤ, pos, negsuc}
use oan_protocol_common.BTreeMap.{get, insert, IsSorted}
use oan_protocol_common.BTreeMap.Laws.{get-insert, insert-IsSorted}
use oan_protocol_common.BTreeMap.Length.{IsSorted-found}
use oan_protocol_common.Storage.Jobs.{
  leased, succeeded, Row, Table, str_leb, is_leasable, row_before, insert_row, sort_rows, limited,
  select_ready, LeasedJob, lease_if, can_lease, is_expired, updated, leased_job, lease_each,
  lease_ready_jobs,
}

module _ (P : String × Row → Type 0) where
  All-insert_row :
      (e : String × Row) (l : List (String × Row)) → P e → All P l → All P (insert_row e l)
  unfolding insert_row
  All-insert_row e [] p h = (p, tt)
  All-insert_row e (f ∷ l) p (q, h) = elim (Bool-cases (row_before e f)) [
    | inl first ↦ rw first (p, (q, h))
    | inr later ↦ rw later (q, All-insert_row e l p h)
  ]

  All-sort_rows : (l : List (String × Row)) → All P l → All P (sort_rows l)
  unfolding sort_rows
  All-sort_rows [] h = tt
  All-sort_rows (e ∷ l) (p, h) = All-insert_row e (sort_rows l) p (All-sort_rows l h)

  All-take : (n : ℕ) (l : List (String × Row)) → All P l → All P (take n l)
  All-take zero l h = tt
  All-take (suc n) [] h = tt
  All-take (suc n) (e ∷ l) (p, h) = (p, All-take n l h)

  All-limited : (limit : ℤ) (l : List (String × Row)) → All P l → All P (limited limit l)
  All-limited (pos n) l h = All-take n l h
  All-limited (negsuc n) l h = h

All-retain :
    (P : String × Row → Type 0) (p : String × Row → Bool) (l : List (String × Row))
    → All P l
    → All (λ e. P e × (p e ≡ true)) (retain p l)
All-retain P p [] h = tt
All-retain P p (e ∷ l) (q, h) = elim (Bool-cases (p e)) [
  | inl kept ↦ rw kept ((q, kept), All-retain P p l h)
  | inr dropped ↦ rw dropped (All-retain P p l h)
]

-- A row of the table that can be leased now.
abbrev Leasable : Table → String → String → Type 0
Leasable table now k = (row : Row) × (get k table ≡ some row) × (is_leasable now row ≡ true)

selected-Leasable :
    (table : Table) (limit : ℤ) (now : String)
    → IsSorted table
    → All (λ e. Leasable table now e.0) (select_ready table limit now)
unfolding select_ready
selected-Leasable table limit now s =
    let found =
      All-retain (λ e. get e.0 table ≡ some e.1) (λ e. is_leasable now e.1) table
        (IsSorted-found table s) in
    All-limited (λ e. Leasable table now e.0) limit _
      (All-sort_rows (λ e. Leasable table now e.0) _
        (All-map _ (λ e. Leasable table now e.0) _ (λ e h. (e.1, h.0, h.1)) found))

held-ne :
    (row : Row) (expires later : String)
    → row.status ≡ leased
    → row.lease_expires_at ≡ some expires
    → str_leb expires later ≡ false
    → is_leasable later row ≡ false
held-ne row expires later status until early =
    ap (λ st. can_lease later st row) status ∙ ap (is_expired later) until ∙ early

finished-ne : (row : Row) (later : String) → row.status ≡ succeeded → is_leasable later row ≡ false
finished-ne row later status = ap (λ st. can_lease later st row) status

-- The row is leased until the given time.
abbrev HeldUntil : String → Table → String → Type 0
HeldUntil expires table k =
    (row : Row) × (get k table ≡ some row)
    × (row.status ≡ leased)
    × (row.lease_expires_at ≡ some expires)

some-eq {ℓ} : {A : Type ℓ} {a b : A} → some a ≡ some b → a ≡ b
some-eq h = cc

module _ {T : Type 0} (from_str : String → Option T) (worker now expires clock : String) where
  abbrev each : List (String × Row) → Table → Option (List (LeasedJob T) × Table)
  each selected table = lease_each from_str worker now expires clock selected table

  Held-insert :
      (k j : String) (row : Row) (table : Table)
      → (row.status ≡ leased) × (row.lease_expires_at ≡ some expires)
      → HeldUntil expires table k
      → HeldUntil expires (insert j row table) k
  Held-insert k j row table new (old, found, status, until) = elim (Bool-cases (j == k)) [
    | inl same ↦ (row, get-insert j k row table ∙ rw same, new.0, new.1)
    | inr other ↦ (old, get-insert j k row table ∙ rw other found, status, until)
  ]

  get-insert_same : (k : String) (row : Row) (table : Table) → get k (insert k row table) ≡ some row
  get-insert_same k row table = get-insert k k row table ∙ ground (arith, eq_iff k k)

  lease_if-leased :
      (b : Bool) (old row : Row)
      → lease_if b old worker expires clock ≡ some row
      → (row.status ≡ leased) × (row.lease_expires_at ≡ some expires)
  lease_if-leased false old row h = absurd (cc)
  lease_if-leased true old row h =
      let e = some-eq h in
      (sym (ap (λ (r : Row). r.status) e), sym (ap (λ (r : Row). r.lease_expires_at) e))

  updated-leased :
      (o : Option Row) (row : Row)
      → updated o worker now expires clock ≡ some row
      → (row.status ≡ leased) × (row.lease_expires_at ≡ some expires)
  updated-leased none row h = absurd (cc)
  updated-leased (some old) row h = lease_if-leased (is_leasable now old) old row h

  updated-spares :
      (row new : Row)
      → row.status ≡ succeeded
      → updated (some row) worker now expires clock ≡ some new
      → ⊥
  updated-spares row new done h = cc

  spare :
      (k j : String) (old next : Row) (table : Table)
      → old.status ≡ succeeded
      → get j table ≡ some old
      → updated (get k table) worker now expires clock ≡ some next
      → get j (insert k next table) ≡ some old
  spare k j old next table done found taken = elim (Bool-cases (k == j)) [
    | inr other ↦ get-insert k j next table ∙ rw other found
    | inl same ↦
        let row : get k table ≡ some old = ap (λ x. get x table) ((eq_iff k j).0 same) ∙ found in
        absurd (
          updated-spares old next done
            (ap (λ o. updated o worker now expires clock) (sym row) ∙ taken))
  ]

  leased_job-eq-some :
      (k : String) (row : Row) (o : Option T) (rest : Option (List (LeasedJob T) × Table))
      (jobs : List (LeasedJob T)) (table : Table)
      → leased_job from_str k row o rest ≡ some (jobs, table)
      → (payload : T) × (others : List (LeasedJob T)) × (rest ≡ some (others, table))
        × (jobs
            ≡ record { job_key = k; payload = payload; attempt_count = row.attempt_count } ∷ others)
  leased_job-eq-some k row none rest jobs table h = cc
  leased_job-eq-some k row (some payload) none jobs table h = cc
  leased_job-eq-some k row (some payload) (some (others, t)) jobs table h =
      let e = some-eq h in
      (
        payload,
        others,
        ap (λ t'. some (others, t')) (ap (λ (x : List (LeasedJob T) × Table). x.1) e),
        sym (ap (λ (x : List (LeasedJob T) × Table). x.0) e),
      )

  -- What a lease leaves: what was held until the time is held, and so is what it returns, which
  -- stood among the selected rows.
  record Leases (P : String → Type 0) (selected : List (String × Row)) (old : Table)
      (jobs : List (LeasedJob T)) (new : Table) : Type 0 where
    keeps : (k : String) → HeldUntil expires old k → HeldUntil expires new k
    holds : All (λ j. HeldUntil expires new j.job_key) jobs
    chosen : All (λ e. P e.0) selected → All (λ j. P j.job_key) jobs
    sorted : IsSorted old → IsSorted new
    spares :
        (k : String) (row : Row)
        → row.status ≡ succeeded
        → get k old ≡ some row
        → get k new ≡ some row

  lease_each-Leases :
      (P : String → Type 0) (selected : List (String × Row)) (table : Table)
      (jobs : List (LeasedJob T)) (new : Table)
      → each selected table ≡ some (jobs, new)
      → Leases P selected table jobs new
  unfolding lease_each
  lease_each-Leases P [] table jobs new h =
      let e = some-eq h in
      let none_leased : [] ≡ jobs = ap (λ (x : List (LeasedJob T) × Table). x.0) e in
      let unchanged : table ≡ new = ap (λ (x : List (LeasedJob T) × Table). x.1) e in
      subst (λ l. Leases P [] table l new) none_leased
        (subst (λ t. Leases P [] table [] t) unchanged
          (record {
            keeps = λ k held. held;
            holds = tt;
            chosen = λ a. tt;
            sorted = λ s. s;
            spares = λ k row done found. found;
          }))
  lease_each-Leases P ((k, row) ∷ selected) table jobs new h =
      elim (Option-cases (updated (get k table) worker now expires clock)) [
        | inl skipped ↦
            let r = lease_each-Leases P selected table jobs new (rw skipped at h) in
            record {
              keeps = r.keeps;
              holds = r.holds;
              chosen = λ a. r.chosen a.1;
              sorted = r.sorted;
              spares = r.spares;
            }
        | inr (next, taken) ↦
            let (payload, others, rest, all) =
              leased_job-eq-some k row (from_str row.payload_json)
                (each selected (insert k next table)) jobs new (rw taken at h) in
            let r = lease_each-Leases P selected (insert k next table) others new rest in
            let held = updated-leased (get k table) next taken in
            subst (λ l. Leases P ((k, row) ∷ selected) table l new) (sym all)
              (record {
                keeps = λ j before. r.keeps j (Held-insert j k next table held before);
                holds = (r.keeps k (next, get-insert_same k next table, held.0, held.1), r.holds);
                chosen = λ a. (a.0, r.chosen a.1);
                sorted = λ s. r.sorted (insert-IsSorted k next table s);
                spares = λ j old done found.
                    r.spares j old done (spare k j old next table done found taken);
              })
      ]

module _ {T : Type 0} (from_str : String → Option T) where
  not_again :
      (table : Table) (expires later j k : String)
      → str_leb expires later ≡ false
      → HeldUntil expires table j
      → Leasable table later k
      → j ≢ k
  not_again table expires later j k early (row, found, status, until) (row', found', leasable)
        same =
      let e : row ≡ row' = some-eq (sym found ∙ ap (λ x. get x table) same ∙ found') in
      cc (held-ne row expires later status until early, ap (is_leasable later) e, leasable)

  -- On a table in the order of its keys, a job that one call of `lease_ready_jobs` leases is not
  -- leased by the next call, if that call is made at a time when the lease has not expired.
  pub lease_exclusive :
      (table : Table) (worker now expires clock : String) (limit : ℤ) (jobs : List (LeasedJob T))
      (between : Table) (other later expires' clock' : String) (limit' : ℤ)
      (jobs' : List (LeasedJob T)) (after : Table)
      → IsSorted table
      → lease_ready_jobs from_str table worker limit now expires clock ≡ some (jobs, between)
      → lease_ready_jobs from_str between other limit' later expires' clock' ≡ some (jobs', after)
      → str_leb expires later ≡ false
      → All (λ j. All (λ j'. j.job_key ≢ j'.job_key) jobs') jobs
  unfolding lease_ready_jobs
  lease_exclusive table worker now expires clock limit jobs between other later expires' clock'
        limit' jobs' after s h h' early =
      let r =
        lease_each-Leases from_str worker now expires clock (λ k. Unit)
          (select_ready table limit now) table jobs between h in
      let r' =
        lease_each-Leases from_str other later expires' clock' (Leasable between later)
          (select_ready between limit' later) between jobs' after h' in
      let free = r'.chosen (selected-Leasable between limit' later (r.sorted s)) in
      All-map (λ (j : LeasedJob T). HeldUntil expires between j.job_key) _ jobs
        (λ j held.
          All-map (λ (j' : LeasedJob T). Leasable between later j'.job_key) _ jobs'
            (λ j' leasable.
              not_again between expires later j.job_key j'.job_key early held leasable)
            free)
        r.holds

  not_finished :
      (p : Row → Bool) (row r' : Row) → p row ≡ false → some row ≡ some r' → ¬ (p r' ≡ true)
  not_finished p row r' apart same leasable = cc (ap p (some-eq same))

  -- On a table in the order of its keys, a job whose status is succeeded is not leased by a call
  -- of `lease_ready_jobs`, and its row stays as it is.
  pub succeeded_stays :
      (table : Table) (worker now expires clock : String) (limit : ℤ) (jobs : List (LeasedJob T))
      (after : Table) (k : String) (row : Row)
      → IsSorted table
      → lease_ready_jobs from_str table worker limit now expires clock ≡ some (jobs, after)
      → get k table ≡ some row
      → row.status ≡ succeeded
      → (get k after ≡ some row) × All (λ j. k ≢ j.job_key) jobs
  unfolding lease_ready_jobs
  succeeded_stays table worker now expires clock limit jobs after k row s h found done =
      let r =
        lease_each-Leases from_str worker now expires clock (Leasable table now)
          (select_ready table limit now) table jobs after h in
      (
        r.spares k row done found,
        All-map (λ (j : LeasedJob T). Leasable table now j.job_key) _ jobs
            (λ j (r', found', leasable) same.
              not_finished (is_leasable now) row r' (finished-ne row now done)
                (sym found ∙ ap (λ x. get x table) same ∙ found') leasable)
            (r.chosen (selected-Leasable table limit now s)),
      )
