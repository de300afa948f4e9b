-- ===== src/Bulletin/History.antt =====
-- Accepted bulletins that end in one hash.
use oan_protocol_common.Base.{
  ℕ, ◌+◌, String, ◌≡◌, refl, ap, sym, ◌∙◌, Option, none, some, List, [], ◌∷◌, arith, length, nat_eq,
  string_eq, option_eq, ok, All, ◌⊎◌, inl, inr,
}
use oan_protocol_common.Core.Suite.{CryptoSuite}
use oan_protocol_common.Crypto.Primitives.{Primitives}
use oan_protocol_common.Crypto.Canonical.Head.{Quotes, IsJson}
use oan_protocol_common.Crypto.Keys.{VerifyingKey}
use oan_protocol_common.Crypto.Signatures.Collisions.{Collision}
use oan_protocol_common.Bulletin.{
  BulletinEvent, BulletinEventCore, Bulletin, Formats, suite_of_event, hash_core, verify_hash_chain,
}
use oan_protocol_common.Bulletin.Cores.{Faithful, hash_core_inj}
use oan_protocol_common.Bulletin.Chain.{IsChain, verify_hash_chain_iff}

some-injective : (a b : String) → some a ≡ some b → a ≡ b
some-injective a b h = cc

-- the link behind the events
abbrev last_link : Option String → List BulletinEvent → Option String
last_link previous [] = previous
last_link previous (event ∷ events) = last_link (some event.event_hash) events

abbrev pub cores : List BulletinEvent → List BulletinEventCore
cores [] = []
cores (event ∷ events) = event.core ∷ cores events

-- Every payload is JSON.
abbrev Payloads : List BulletinEvent → Type 0
Payloads = All (λ event. IsJson event.core.payload)

module _ (primitives : Primitives) (formats : Formats) (root_key : VerifyingKey) where
  -- the last event's core, with its number
  last_core :
      (index : ℕ) (p : Option String) (a : BulletinEvent) (xs : List BulletinEvent)
      → IsChain primitives formats root_key index p (a ∷ xs)
      → Payloads (a ∷ xs)
      → (suite : CryptoSuite) × (core : BulletinEventCore) × (last_link p (a ∷ xs)
          ≡ some (hash_core primitives formats suite core))
        × IsJson core.payload
        × (core.sequence ≡ index + length (a ∷ xs))
  last_core index p a [] (number, _, hash, _, _) (json, _) =
      (suite_of_event a, a.core, ap some (sym hash), json, omega (arith, number))
  last_core index p a (b ∷ xs) (_, _, _, _, rest) (_, json) =
      let (suite, core, link, payload, number) =
        last_core (index + 1) (some a.event_hash) b xs rest json in
      (suite, core, link, payload, omega (arith, number))

  module _ (faithful : Faithful formats) (read : String → Option (String × String))
      (quotes : Quotes primitives.json_string read) where
    same_history :
        (index : ℕ) (p q : Option String) (xs ys : List BulletinEvent)
        → IsChain primitives formats root_key index p xs
        → IsChain primitives formats root_key index q ys
        → Payloads xs
        → Payloads ys
        → length xs ≡ length ys
        → last_link p xs ≡ last_link q ys
        → ((cores xs ≡ cores ys) × (p ≡ q)) ⊎ Collision primitives
    same_history index p q [] [] ca cb ja jb size e = inl (refl, e)
    same_history index p q [] (b ∷ ys) ca cb ja jb size e = absurd (omega (arith, size))
    same_history index p q (a ∷ xs) [] ca cb ja jb size e = absurd (omega (arith, size))
    same_history index p q (a ∷ xs) (b ∷ ys) (_, link, hash, _, ca) (_, link', hash', _, cb)
          (json, ja) (json', jb) size e =
        elim (same_history (index + 1) (some a.event_hash) (some b.event_hash) xs ys ca cb ja jb
          (omega (arith, size)) e) [
            | inr collision ↦ inr collision
            | inl (rest, same) ↦
                elim (hash_core_inj primitives formats faithful read quotes (suite_of_event a)
                  (suite_of_event b) a.core b.core json json'
                  (hash ∙ some-injective _ _ same ∙ sym hash')) [
                    | inr collision ↦ inr collision
                    | inl core ↦ inl (
                      ap (λ c. c ∷ cores xs) core ∙ ap (λ l. b.core ∷ l) rest,
                      sym link ∙ ap (λ (c : BulletinEventCore). c.previous_hash) core ∙ link',
                    )
                  ]
          ]

    same_length :
        (xs ys : List BulletinEvent)
        → IsChain primitives formats root_key 0 none xs
        → IsChain primitives formats root_key 0 none ys
        → Payloads xs
        → Payloads ys
        → last_link none xs ≡ last_link none ys
        → (length xs ≡ length ys) ⊎ Collision primitives
    same_length [] [] ca cb ja jb e = inl refl
    same_length [] (b ∷ ys) ca cb ja jb e =
        let (_, _, link, _, _) = last_core 0 none b ys cb jb in absurd (cc (e, link))
    same_length (a ∷ xs) [] ca cb ja jb e =
        let (_, _, link, _, _) = last_core 0 none a xs ca ja in absurd (cc (e, link))
    same_length (a ∷ xs) (b ∷ ys) ca cb ja jb e =
        let (suite, core, link, json, number) = last_core 0 none a xs ca ja in
        let (suite', core', link', json', number') = last_core 0 none b ys cb jb in
        elim (hash_core_inj primitives formats faithful read quotes suite suite' core core' json
          json' (some-injective _ _ (sym link ∙ e ∙ link'))) [
            | inl one ↦
                inl (omega (arith, number, number', ap (λ (c : BulletinEventCore). c.sequence) one))
            | inr collision ↦ inr collision
          ]

    -- Two bulletins that `verify_hash_chain` accepts and that end in the same hash, or are both
    -- empty, have the same event cores in the same order, or two different byte sequences have one
    -- hash; the payloads are JSON, a string is read back from its text, and the texts of times and
    -- of numbers tell them apart.
    pub same_bulletin :
        (bulletin other : Bulletin)
        → Payloads bulletin.events
        → Payloads other.events
        → verify_hash_chain primitives formats bulletin root_key ≡ ok tt
        → verify_hash_chain primitives formats other root_key ≡ ok tt
        → last_link none bulletin.events ≡ last_link none other.events
        → (cores bulletin.events ≡ cores other.events) ⊎ Collision primitives
    same_bulletin bulletin other ja jb h k e =
        let ca = (verify_hash_chain_iff primitives formats root_key bulletin).0 h in
        let cb = (verify_hash_chain_iff primitives formats root_key other).0 k in
        elim (same_length bulletin.events other.events ca cb ja jb e) [
          | inr collision ↦ inr collision
          | inl size ↦
              elim (same_history 0 none none bulletin.events other.events ca cb ja jb size e) [
                | inl (same, _) ↦ inl same
                | inr collision ↦ inr collision
              ]
        ]
