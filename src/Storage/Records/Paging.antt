-- ===== src/Storage/Records/Paging.antt =====
-- The pages of a namespace: each record is on one page, in the order of the records.
use mathlib.Core.Path.{subst}
use oan_protocol_common.Base.{
  ℕ, zero, suc, ◌≤◌, String, ◌≡◌, refl, sym, ap, ◌∙◌, Bool, true, Option, none, some, List, [], ◌∷◌,
  ◌++◌, All, any, retain, length, take, drop, Bool-cases, inl, inr, arith, if◌then◌else◌, ok,
  ok_inj, >>=-eq-ok, fail_if-eq-ok, ok_or-eq-ok,
}
use oan_protocol_common.BTreeMap.{IsSorted}
use oan_protocol_common.Storage.Limits.{
  json, QueryLimits, NamespacePageCursor, Record, PageState, append_namespace_item, append_all,
  normalize_limit, record_too_large, page_too_large,
}
use oan_protocol_common.Storage.Limits.Pages.{normalize_limit-page}
use oan_protocol_common.Storage.Records.{
  Records, rows_of, is_after, in_order, behind, NamespacePage, parse_all, read_namespace_page,
  exists_behind,
}
use oan_protocol_common.Storage.Records.Filters.{
  retain_every, retain_no, retain-retain, All-keep, All-at, retain-holds, take-length, append_nil,
  append_assoc,
}
use oan_protocol_common.Storage.Records.Order.{
  IsAfter, is_after_trans, is_after_irrefl, is_after_asym, IsStrict, in_order-IsStrict,
}

abbrev cursor_of : Record → NamespacePageCursor
cursor_of r = record { updated_at = r.updated_at; record_key = r.record_key }

-- the cursor behind some rows
abbrev last_cursor : Option NamespacePageCursor → List Record → Option NamespacePageCursor
last_cursor o [] = o
last_cursor o (r ∷ rows) = last_cursor (some (cursor_of r)) rows

retain-IsStrict : (p : Record → Bool) (l : List Record) → IsStrict l → IsStrict (retain p l)
retain-IsStrict p [] h = tt
retain-IsStrict p (r ∷ l) (a, h) = elim (Bool-cases (p r)) [
  | inl kept ↦ rw kept (All-keep (IsAfter r) p l a, retain-IsStrict p l h)
  | inr left ↦ rw left (retain-IsStrict p l h)
]

-- What is behind a record are the records that follow it.
behind_split :
    (xs ys : List Record) (c : Record)
    → IsStrict (xs ++ c ∷ ys)
    → behind (some (cursor_of c)) (xs ++ c ∷ ys) ≡ ys
behind_split [] ys c (a, h) =
    rw (is_after_irrefl c) (retain_every (is_after c.updated_at c.record_key) ys a)
behind_split (x ∷ xs) ys c (a, h) =
    rw (is_after_asym x c (All-at (IsAfter x) xs ys c a)) (behind_split xs ys c h)

-- The last of the first rows of a list, and what follows it.
split_last :
    (r : Record) (l : List Record) (n : ℕ)
    → (xs : List Record) × (c : Record) × (r ∷ l ≡ xs ++ c ∷ drop (length (take n l)) l)
      × (last_cursor (some (cursor_of r)) (take n l) ≡ some (cursor_of c))
split_last r l zero = ([], r, refl, refl)
split_last r [] (suc n) = ([], r, refl, refl)
split_last r (x ∷ l) (suc n) =
    let (xs, c, same, last) = split_last x l n in (r ∷ xs, c, ap (λ m. r ∷ m) same, last)

-- what is behind an optional cursor, nothing behind none
abbrev pub rest_of : Option NamespacePageCursor → List Record → List Record
rest_of none rows = []
rest_of (some cursor) rows = behind (some cursor) rows

last_row :
    (P : Record → Type 0) (r : Record) (l : List Record) (n : ℕ)
    → IsStrict (r ∷ l)
    → All P (r ∷ l)
    → (c : Record) × P c
      × (last_cursor (some (cursor_of r)) (take n l) ≡ some (cursor_of c))
      × (behind (some (cursor_of c)) (r ∷ l) ≡ drop (length (take n l)) l)
last_row P r l n h p =
    let (xs, c, same, last) = split_last r l n in
    let strict : IsStrict (xs ++ c ∷ drop (length (take n l)) l) = subst IsStrict same h in
    (
      c,
      All-at P xs (drop (length (take n l)) l) c (subst (All P) same p),
      last,
      ap (behind (some (cursor_of c))) same ∙ behind_split xs (drop (length (take n l)) l) c strict,
    )

-- What follows the first rows is what is behind the last of them, in a list with the same behind it.
rows_rest :
    (P : Record → Type 0) (rows l : List Record) (n : ℕ)
    → IsStrict l
    → All P l
    → ((c : Record) → P c → behind (some (cursor_of c)) rows ≡ behind (some (cursor_of c)) l)
    → drop (length (take (suc n) l)) l ≡ rest_of (last_cursor none (take (suc n) l)) rows
rows_rest P rows [] n h p agree = refl
rows_rest P rows (r ∷ l) n h p agree =
    let (c, q, last, rest) = last_row P r l n h p in
    sym (ap (λ o. rest_of o rows) last ∙ agree c q ∙ rest)

All-unit : (l : List Record) → All (λ r. Unit {0}) l
All-unit [] = tt
All-unit (r ∷ l) = (tt, All-unit l)

cursor_rest :
    (cursor : Option NamespacePageCursor) (rows : List Record) (n : ℕ)
    → IsStrict rows
    → drop (length (take (suc n) (behind cursor rows))) (behind cursor rows)
      ≡ rest_of (last_cursor none (take (suc n) (behind cursor rows))) rows
cursor_rest none rows n h = rows_rest (λ r. Unit) rows rows n h (All-unit rows) (λ c q. refl)
cursor_rest (some cursor) rows n h =
    let test : Record → Bool = is_after cursor.updated_at cursor.record_key in
    rows_rest (λ r. test r ≡ true) rows (retain test rows) n (retain-IsStrict test rows h)
      (retain-holds test rows)
      λ c q. sym (
        retain-retain test (is_after c.updated_at c.record_key) rows
          (λ x. is_after_trans _ _ c x q))

finish_rest :
    (o : Option NamespacePageCursor) (rows : List Record)
    → rest_of (if exists_behind o rows then o else none) rows ≡ rest_of o rows
finish_rest none rows = refl
finish_rest (some cursor) rows =
    elim (Bool-cases (any (is_after cursor.updated_at cursor.record_key) rows)) [
      | inl more ↦ rw more refl
      | inr none_left ↦ rw none_left (sym (retain_no _ rows none_left))
    ]

module _ {T : Type 0} (from_str : String → Option T) (limits : QueryLimits) where
  -- What a row adds to a page.
  append_namespace_item_sound :
      (page next : PageState T) (row : Record)
      → append_namespace_item from_str limits page row ≡ ok next
      → (value : T) × (from_str row.value_json ≡ some value)
        × (next.items ≡ page.items ++ (value ∷ []))
        × (next.next_cursor ≡ some (cursor_of row))
  unfolding append_namespace_item
  append_namespace_item_sound page next row h =
      let (_, h1) = (fail_if-eq-ok _ (record_too_large _ limits.max_record_bytes) _ next).0 h in
      let (_, h2) = (fail_if-eq-ok _ (page_too_large _ limits.max_page_bytes) _ next).0 h1 in
      let (value, found, h3) = (ok_or-eq-ok (from_str row.value_json) json _ next).0 h2 in
      let same = ok_inj h3 in
      (value, found, ap (λ p. p.items) (sym same), ap (λ p. p.next_cursor) (sym same))

  append_all_sound :
      (page next : PageState T) (rows : List Record)
      → append_all from_str limits page rows ≡ ok next
      → (values : List T) × (parse_all from_str rows ≡ ok values)
        × (next.items ≡ page.items ++ values)
        × (length values ≡ length rows)
        × (next.next_cursor ≡ last_cursor page.next_cursor rows)
  unfolding append_all parse_all
  append_all_sound page next [] h =
      let same = ok_inj h in
      (
        [],
        refl,
        ap (λ p. p.items) (sym same) ∙ sym (append_nil page.items),
        refl,
        ap (λ p. p.next_cursor) (sym same),
      )
  append_all_sound page next (row ∷ rows) h =
      let (middle, first, rest) =
        >>=-eq-ok (append_namespace_item from_str limits page row)
          (λ p. append_all from_str limits p rows) h in
      let (value, found, items, cursor) = append_namespace_item_sound page middle row first in
      let (values, parsed, more, size, last) = append_all_sound middle next rows rest in
      (
        value ∷ values,
        rw found (rw parsed refl),
        more ∙ ap (λ l. l ++ values) items ∙ append_assoc page.items (value ∷ []) values,
        ap suc size,
        last ∙ ap (λ o. last_cursor o rows) cursor,
      )

  -- A page has the values of the first records behind its cursor, and what is behind the next cursor
  -- are the other records.
  page_rows :
      (cursor : Option NamespacePageCursor) (rows : List Record) (n : ℕ) (page : PageState T)
      → IsStrict rows
      → 1 ≤ n
      → append_all from_str limits
          (record { items = []; total_bytes = 0; next_cursor = none })
          (take n (behind cursor rows))
        ≡ ok page
      → (parse_all from_str (take (length page.items) (behind cursor rows)) ≡ ok page.items)
        × (drop (length page.items) (behind cursor rows)
            ≡ rest_of (if exists_behind page.next_cursor rows then page.next_cursor else none) rows)
  page_rows cursor rows zero page h one read = absurd (omega arith)
  page_rows cursor rows (suc n) page h one read =
      let (values, parsed, items, size, last) = append_all_sound _ page _ read in
      let count : length page.items ≡ length (take (suc n) (behind cursor rows)) =
        ap length items ∙ size in
      (
        rw count (rw (take-length (suc n) (behind cursor rows)) (parsed ∙ ap ok (sym items))),
        rw count (
            cursor_rest cursor rows n h
            ∙ ap (λ o. rest_of o rows) (sym last)
            ∙ sym (finish_rest page.next_cursor rows)),
      )

  -- On a table in the order of its keys, a page that `read_namespace_page` returns has the values
  -- of the first records behind its cursor, and the records behind the next cursor are exactly the
  -- other ones, none where there is no next cursor: pages that are read one after the other have
  -- each record once, in the order of the records.
  pub read_namespace_page_lem :
      (records : Records) (namespace : String) (cursor : Option NamespacePageCursor)
      (requested_limit : Option ℕ) (page : NamespacePage T)
      → IsSorted (rows_of namespace records)
      → read_namespace_page from_str records namespace cursor requested_limit limits ≡ ok page
      → (parse_all from_str
            (take (length page.items) (behind cursor (in_order (rows_of namespace records))))
          ≡ ok page.items)
        × (drop (length page.items) (behind cursor (in_order (rows_of namespace records)))
            ≡ rest_of page.next_cursor (in_order (rows_of namespace records)))
  unfolding read_namespace_page
  read_namespace_page_lem records namespace cursor requested_limit page sorted h =
      let (n, bounded, h1) = >>=-eq-ok (normalize_limit limits requested_limit) _ h in
      let (state, read, h2) =
        >>=-eq-ok
          (append_all from_str limits (record { items = []; total_bytes = 0; next_cursor = none })
            (take n (behind cursor (in_order (rows_of namespace records)))))
          _ h1 in
      let (one, _) = normalize_limit-page limits requested_limit n bounded in
      let same = ok_inj h2 in
      subst
        (λ (p : NamespacePage T).
          (parse_all from_str
              (take (length p.items) (behind cursor (in_order (rows_of namespace records))))
            ≡ ok p.items)
          × (drop (length p.items) (behind cursor (in_order (rows_of namespace records)))
              ≡ rest_of p.next_cursor (in_order (rows_of namespace records))))
        same
        (page_rows cursor (in_order (rows_of namespace records)) n state
          (in_order-IsStrict (rows_of namespace records) sorted) one read)
