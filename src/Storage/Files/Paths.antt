-- ===== src/Storage/Files/Paths.antt =====
-- The paths of credentials, and the names that they are made of (crates/oan-storage/src/lib.rs).
use Prim.Native.String.{[], ◌∷◌, ◌++◌}
use text.Mathlib.TextLemmas.{
  cons-append, nil-append, head-eq_of_cons-eq, tail-eq_of_cons-eq, append_assoc,
  append_cancel_right,
}
use oan_protocol_common.Base.{
  Char, code, String, ◌≡◌, ◌≢◌, inl, inr, refl, sym, ap, ◌∙◌, false, true, arith, eq_iff,
  Bool-cases, ◌==◌, string_eq, nat_beq,
}
use oan_protocol_common.Text.{contains, ends_with}
use oan_protocol_common.Crypto.Canonical.Parts.{cancel}
use oan_protocol_common.Storage.Files.{is_kept, storage_safe_name, join, credential_path}
use oan_protocol_common.Storage.Files.Names.{
  Alike, marked, storage_safe_name-cons, storage_safe_name_iff,
}

-- The text has no slash.
abbrev NoSlash : String → Type 0
NoSlash s = contains s b'/' ≡ false

slash_behind : (a h : String) → contains (a ++ ("/" ++ h)) b'/' ≡ true
unfolding contains
slash_behind [] h = rw (nil-append, cons-append) refl
slash_behind (c ∷ a) h = rw (cons-append c a) (ground (arith, slash_behind a h))

clash : (a h k : String) → NoSlash h → h ≡ a ++ ("/" ++ k) → ⊥
clash a h k n p = cc (slash_behind a k)

drop_slash : (h : String) → "" ++ ("/" ++ h) ≡ "/" ++ h
drop_slash h = nil-append ("/" ++ h)

slash_tail : (d : Char) (b h : String) → "/" ++ h ≡ d ∷ b → h ≡ b
slash_tail d b h p = cancel _ d h b (p ∙ sym (rw (cons-append, nil-append) refl))

-- What stands before the last slash, and behind it.
at_slash :
    (a b h k : String)
    → NoSlash h
    → NoSlash k
    → a ++ ("/" ++ h) ≡ b ++ ("/" ++ k)
    → (a ≡ b) × (h ≡ k)
at_slash [] [] h k n m p = (refl, cancel _ _ h k (sym (drop_slash h) ∙ p ∙ drop_slash k))
at_slash [] (d ∷ b) h k n m p =
    absurd (clash b h k n (slash_tail d _ h (sym (drop_slash h) ∙ p ∙ cons-append d b _)))
at_slash (c ∷ a) [] h k n m p =
    absurd (clash a k h m (slash_tail c _ k (sym (drop_slash k) ∙ sym p ∙ cons-append c a _)))
at_slash (c ∷ a) (d ∷ b) h k n m p =
    let q = sym (cons-append c a _) ∙ p ∙ cons-append d b _ in
    let (front, same) = at_slash a b h k n m (tail-eq_of_cons-eq q) in
    ((λ i. head-eq_of_cons-eq q i ∷ front i), same)

append_some : (a : String) (c : Char) (s : String) → a ++ (c ∷ s) ≢ []
append_some [] c s p = cc (nil-append (c ∷ s), p)
append_some (d ∷ a) c s p = cc (cons-append d a (c ∷ s), p)

one_char : (c : Char) → NoSlash (c ∷ "") → ((c ∷ "") == "/") ≡ false
unfolding contains
one_char c h = elim (Bool-cases ((c ∷ "") == "/")) [
  | inl same ↦
      absurd (ground (arith, h, ap code (head-eq_of_cons-eq ((eq_iff (c ∷ "") "/").0 same))))
  | inr other ↦ other
]

ends_with-cons : (c : Char) (t : String) → t ≢ [] → ends_with "/" (c ∷ t) ≡ ends_with "/" t
unfolding ends_with
ends_with-cons c t more = elim (Bool-cases ((c ∷ t) == "/")) [
  | inl same ↦ absurd (more (tail-eq_of_cons-eq ((eq_iff (c ∷ t) "/").0 same)))
  | inr other ↦ rw other refl
]

-- A text whose last part has no slash, and is not empty, does not end with one.
ends_with-NoSlash : (c : Char) (s : String) → NoSlash (c ∷ s) → ends_with "/" (c ∷ s) ≡ false
unfolding ends_with contains
ends_with-NoSlash c [] h = rw (one_char c h) refl
ends_with-NoSlash c (d ∷ s) h =
    ends_with-cons c (d ∷ s) (λ p. cc (p)) ∙ ends_with-NoSlash d s (ground arith)

ends_with-append :
    (a : String) (c : Char) (s : String) → NoSlash (c ∷ s) → ends_with "/" (a ++ (c ∷ s)) ≡ false
unfolding ends_with
ends_with-append [] c s h = rw (nil-append (c ∷ s)) (ends_with-NoSlash c s h)
ends_with-append (d ∷ a) c s h =
    rw (cons-append d a (c ∷ s))
      (ends_with-cons d (a ++ (c ∷ s)) (append_some a c s) ∙ ends_with-append a c s h)

marked_slash : (c : Char) → nat_beq (code (marked c)) b'/' ≡ false
marked_slash c = elim (Bool-cases (is_kept c)) [
  | inl kept ↦ rw kept (ground arith)
  | inr other ↦ rw other refl
]

safe-NoSlash : (s : String) → NoSlash (storage_safe_name s)
unfolding storage_safe_name contains
safe-NoSlash [] = refl
safe-NoSlash (c ∷ s) = rw (storage_safe_name-cons c s) (rw (marked_slash c) (safe-NoSlash s))

-- The path of a part in a folder, where the folder does not end with a slash.
join_plain : (a s : String) → ends_with "/" a ≡ false → join a s ≡ a ++ ("/" ++ s)
unfolding join
join_plain a s h = rw h refl

join_inj :
    (a b s t : String)
    → ends_with "/" a ≡ false
    → ends_with "/" b ≡ false
    → NoSlash s
    → NoSlash t
    → join a s ≡ join b t
    → (a ≡ b) × (s ≡ t)
join_inj a b s t h k n m p = at_slash a b s t n m (sym (join_plain a s h) ∙ p ∙ join_plain b t k)

-- A folder that is named by a name that is not empty does not end with a slash.
join-plain :
    (a s : String)
    → ends_with "/" a ≡ false
    → s ≢ []
    → ends_with "/" (join a (storage_safe_name s)) ≡ false
join-plain a [] h k = absurd (k refl)
join-plain a (c ∷ s) h k =
    ap (ends_with "/") (
      join_plain a (storage_safe_name (c ∷ s)) h
      ∙ ap (λ n. a ++ ("/" ++ n)) (storage_safe_name-cons c s)
      ∙ sym (append_assoc a "/" (marked c ∷ storage_safe_name s)))
    ∙ ends_with-append (a ++ "/") (marked c) (storage_safe_name s)
        (ap (λ n. contains n b'/') (sym (storage_safe_name-cons c s)) ∙ safe-NoSlash (c ∷ s))

json-NoSlash : (s : String) → NoSlash s → NoSlash (s ++ ".json")
unfolding contains
json-NoSlash [] h = refl
json-NoSlash (c ∷ s) h = rw (cons-append c s ".json") (ground (arith, json-NoSlash s))

-- The four parts are alike.
abbrev pub AreAlike : String → String → String → String → String → String → String → String → Type 0
AreAlike dimension issuer subject id dimension' issuer' subject' id' =
    Alike dimension dimension' × Alike issuer issuer' × Alike subject subject' × Alike id id'

module _ (dimension issuer subject id dimension' issuer' subject' id' : String) where
  pub same_path :
      AreAlike dimension issuer subject id dimension' issuer' subject' id'
      → credential_path dimension issuer subject id
        ≡ credential_path dimension' issuer' subject' id'
  unfolding credential_path
  same_path (p, q, r, t) = rw ((storage_safe_name_iff dimension dimension').1 p) (
      rw ((storage_safe_name_iff issuer issuer').1 q) (
        rw ((storage_safe_name_iff subject subject').1 r)
          (rw ((storage_safe_name_iff id id').1 t) refl)))

  pub path_alike :
      dimension ≢ []
      → issuer ≢ []
      → subject ≢ []
      → dimension' ≢ []
      → issuer' ≢ []
      → subject' ≢ []
      → credential_path dimension issuer subject id
        ≡ credential_path dimension' issuer' subject' id'
      → AreAlike dimension issuer subject id dimension' issuer' subject' id'
  unfolding credential_path ends_with
  path_alike d i s d' i' s' p =
      let root : String = "credentials/by-dimension" in
      let one = join-plain root dimension refl d in
      let two = join-plain _ issuer one i in
      let one' = join-plain root dimension' refl d' in
      let two' = join-plain _ issuer' one' i' in
      let (a, file) =
        join_inj _ _ _ _ (join-plain _ subject two s) (join-plain _ subject' two' s')
          (json-NoSlash _ (safe-NoSlash id)) (json-NoSlash _ (safe-NoSlash id')) p in
      let (b, third) = join_inj _ _ _ _ two two' (safe-NoSlash subject) (safe-NoSlash subject') a in
      let (c, second) = join_inj _ _ _ _ one one' (safe-NoSlash issuer) (safe-NoSlash issuer') b in
      let (_, first) =
        join_inj root root _ _ refl refl (safe-NoSlash dimension) (safe-NoSlash dimension') c in
      (
        (storage_safe_name_iff dimension dimension').0 first,
        (storage_safe_name_iff issuer issuer').0 second,
        (storage_safe_name_iff subject subject').0 third,
        (storage_safe_name_iff id id').0 (append_cancel_right _ _ ".json" file),
      )
