-- ===== src/Bulletin/Cores.antt =====
-- The hash of an event's core, and what it says of the core.
use oan_protocol_common.Base.{
  ℕ, String, ◌≡◌, refl, sym, ap, ◌∙◌, Option, none, some, ◌⊎◌, inl, inr, ◌==◌, string_eq,
  if◌then◌else◌,
}
use oan_protocol_common.Chrono.{Time}
use oan_protocol_common.Json.{number, string}
use oan_protocol_common.Core.Suite.{CryptoSuite}
use oan_protocol_common.Crypto.Primitives.{Primitives}
use oan_protocol_common.Crypto.Canonical.Head.{Quotes, IsJson}
use oan_protocol_common.Crypto.Signatures.Collisions.{Collision, hash_inj}
use oan_protocol_common.Bulletin.{
  BulletinEventType, BulletinEventCore, root_initialized, cdn_service_info_updated,
  registrar_authorized, registrar_revoked, discovery_node_authorized,
  discovery_node_domains_updated, discovery_node_revoked, node_revoked, capability_tag_tree_updated,
  event_type_name, optional_text, Formats, core_value, hash_core,
}

-- What is asked of the texts of times and of numbers: a number's text is one of a JSON number, and
-- different times, and different numbers, have different texts.
pub record Faithful (formats : Formats) : Type 0 where
  pub rfc3339_injective : (s t : Time) → formats.rfc3339 s ≡ formats.rfc3339 t → s ≡ t
  pub decimal_injective : (m n : ℕ) → formats.decimal m ≡ formats.decimal n → m ≡ n
  pub decimal_json : (n : ℕ) → IsJson (number (formats.decimal n))

-- the type of event that a name is of
abbrev named : String → Option BulletinEventType
named s =
    if s == "ROOT_INITIALIZED"
    then some root_initialized
    else (if s == "CDN_SERVICE_INFO_UPDATED"
        then some cdn_service_info_updated
        else (if s == "REGISTRAR_AUTHORIZED"
            then some registrar_authorized
            else (if s == "REGISTRAR_REVOKED"
                then some registrar_revoked
                else (if s == "DISCOVERY_NODE_AUTHORIZED"
                    then some discovery_node_authorized
                    else (if s == "DISCOVERY_NODE_DOMAINS_UPDATED"
                        then some discovery_node_domains_updated
                        else (if s == "DISCOVERY_NODE_REVOKED"
                            then some discovery_node_revoked
                            else (if s == "NODE_REVOKED"
                                then some node_revoked
                                else (if s == "CAPABILITY_TAG_TREE_UPDATED"
                                    then some capability_tag_tree_updated
                                    else none))))))))

named_back : (t : BulletinEventType) → named (event_type_name t) ≡ some t
unfolding event_type_name
named_back root_initialized = refl
named_back cdn_service_info_updated = refl
named_back registrar_authorized = refl
named_back registrar_revoked = refl
named_back discovery_node_authorized = refl
named_back discovery_node_domains_updated = refl
named_back discovery_node_revoked = refl
named_back node_revoked = refl
named_back capability_tag_tree_updated = refl

event_type_name_injective :
    (s t : BulletinEventType) → event_type_name s ≡ event_type_name t → s ≡ t
event_type_name_injective s t p =
    let e : some s ≡ some t = sym (named_back s) ∙ ap named p ∙ named_back t in cc

optional_text_injective : (a b : Option String) → optional_text a ≡ optional_text b → a ≡ b
optional_text_injective none none p = refl
optional_text_injective none (some b) p = cc
optional_text_injective (some a) none p = cc
optional_text_injective (some a) (some b) p = let e : a ≡ b = cc in ap some e

string_inj : {s t : String} → string s ≡ string t → s ≡ t
string_inj h = cc

number_inj : {s t : String} → number s ≡ number t → s ≡ t
number_inj h = cc

optional_text-IsJson : (a : Option String) → IsJson (optional_text a)
optional_text-IsJson none = tt
optional_text-IsJson (some a) = tt

module _ (primitives : Primitives) (formats : Formats) (faithful : Faithful formats) where
  core_value_injective :
      (a b : BulletinEventCore)
      → core_value primitives formats a ≡ core_value primitives formats b
      → a ≡ b
  unfolding core_value
  core_value_injective a b p =
      let actor : string a.actor_did ≡ string b.actor_did = cc in
      let created : string (formats.rfc3339 a.created_at) ≡ string (formats.rfc3339 b.created_at) =
        cc in
      let event : string (event_type_name a.event_type) ≡ string (event_type_name b.event_type) =
        cc in
      let payload : a.payload ≡ b.payload = cc in
      let previous : optional_text a.previous_hash ≡ optional_text b.previous_hash = cc in
      let sequence : number (formats.decimal a.sequence) ≡ number (formats.decimal b.sequence) =
        cc in
      let subject : string a.subject_did ≡ string b.subject_did = cc in
      λ i. record {
        sequence = faithful.decimal_injective a.sequence b.sequence (number_inj sequence) i;
        previous_hash = optional_text_injective a.previous_hash b.previous_hash previous i;
        event_type = event_type_name_injective a.event_type b.event_type (string_inj event) i;
        subject_did = string_inj subject i;
        actor_did = string_inj actor i;
        payload = payload i;
        created_at = faithful.rfc3339_injective a.created_at b.created_at (string_inj created) i;
      }

  core_value-IsJson :
      (c : BulletinEventCore) → IsJson c.payload → IsJson (core_value primitives formats c)
  unfolding core_value
  core_value-IsJson c j = (
    tt,
    (
      tt,
      (
        tt,
        (j, (optional_text-IsJson c.previous_hash, (faithful.decimal_json c.sequence, (tt, tt)))),
      ),
    ),
  )

  -- Two cores with one hash are one, or two byte sequences have one hash.
  pub hash_core_inj :
      (read : String → Option (String × String))
      → Quotes primitives.json_string read
      → (s t : CryptoSuite) (a b : BulletinEventCore) → IsJson a.payload
      → IsJson b.payload
      → hash_core primitives formats s a ≡ hash_core primitives formats t b
      → (a ≡ b) ⊎ Collision primitives
  unfolding hash_core
  hash_core_inj read quotes s t a b j k p =
      elim (hash_inj primitives read quotes s t (core_value primitives formats a)
        (core_value primitives formats b) (core_value-IsJson a j) (core_value-IsJson b k) p) [
          | inl same ↦ inl (core_value_injective a b same)
          | inr collision ↦ inr collision
        ]
