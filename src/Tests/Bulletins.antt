-- ===== src/Tests/Bulletins.antt =====
-- A bulletin of two events, signed without proofs and with them.
use oan_protocol_common.Base.{
  ℕ, zero, suc, String, ◌≡◌, ◌↔◌, ◌≢◌, ◌⊎◌, refl, sym, ap, ◌∙◌, Option, none, some, List, [], ◌∷◌,
  ok, err, Result,
}
use oan_protocol_common.Base.Int.{ℤ, pos, negsuc}
use oan_protocol_common.Text.Laws.{AllChars, AllChars-append}
use oan_protocol_common.Text.{strip_prefix}
use oan_protocol_common.Json.{null}
use oan_protocol_common.Core.Suite.{ed25519_sha256}
use oan_protocol_common.Core.Document.{suite_of_proof}
use oan_protocol_common.Crypto.Keys.{SigningKey, VerifyingKey, suite_of_signing_key}
use oan_protocol_common.Crypto.Canonical.Head.{in_number}
use oan_protocol_common.Crypto.Signatures.{
  hash_json_with_suite, hash_hex, verify_bytes, verify_payload_with_proof,
  build_data_integrity_proof, sign_bytes_multibase,
}
use oan_protocol_common.Crypto.Signatures.Collisions.{Collision}
use oan_protocol_common.Bulletin.{
  BulletinEventType, BulletinError, BulletinEventCore, BulletinEvent, Bulletin, Formats,
  root_initialized, registrar_authorized, sign, hash_core, verify_signature, verify_event,
  verify_from, verify_hash_chain, suite_of_event,
}
use oan_protocol_common.Bulletin.Cores.{Faithful}
use oan_protocol_common.Bulletin.Chain.{IsChain, verify_hash_chain_iff}
use oan_protocol_common.Bulletin.History.{same_bulletin, cores}
use oan_protocol_common.Tests.Documents.{zeros}
use oan_protocol_common.Tests.Keys.{
  ones, write_bytes, read_bytes, bytes_back, sample_primitives, sample_Quotes, read_string,
}

-- A time is written as its size, with a zero behind it when it is negative.
abbrev time_bytes : ℤ → List ℕ
time_bytes (pos n) = n ∷ []
time_bytes (negsuc n) = n ∷ 0 ∷ []

abbrev bytes_time : List ℕ → ℤ
bytes_time [] = pos 0
bytes_time (n ∷ []) = pos n
bytes_time (n ∷ m ∷ b) = negsuc n

time_back : (t : ℤ) → bytes_time (time_bytes t) ≡ t
time_back (pos n) = refl
time_back (negsuc n) = refl

abbrev number_of : List ℕ → ℕ
number_of [] = 0
number_of (n ∷ b) = n

abbrev sample_formats : Formats
sample_formats = record {
  rfc3339 = λ t. write_bytes (time_bytes t);
  decimal = λ n. write_bytes (n ∷ []);
}

write_bytes_injective : (b c : List ℕ) → write_bytes b ≡ write_bytes c → b ≡ c
write_bytes_injective b c p =
    let e : some b ≡ some c = sym (bytes_back b) ∙ ap (read_bytes 0) p ∙ bytes_back c in cc

ones-AllChars : (n : ℕ) → AllChars in_number (ones n "")
ones-AllChars zero = (refl, tt)
ones-AllChars (suc n) = AllChars-append in_number "1" (ones n "") (refl, tt) (ones-AllChars n)

ones_some : (n : ℕ) → ones n "" ≢ ""
ones_some n p =
    let e : some (n ∷ []) ≡ some [] = sym (bytes_back (n ∷ [])) ∙ ap (read_bytes 0) p in cc

sample_Faithful : Faithful sample_formats
sample_Faithful = record {
  rfc3339_injective = λ s t p.
      sym (time_back s)
      ∙ ap bytes_time (write_bytes_injective (time_bytes s) (time_bytes t) p)
      ∙ time_back t;
  decimal_injective = λ m n p. ap number_of (write_bytes_injective (m ∷ []) (n ∷ []) p);
  decimal_json = λ n. (ones-AllChars n, ones_some n);
}

abbrev core_of : ℕ → Option String → BulletinEventType → BulletinEventCore
core_of sequence previous_hash event_type = record {
  sequence = sequence;
  previous_hash = previous_hash;
  event_type = event_type;
  subject_did = "subject";
  actor_did = "root";
  payload = null;
  created_at = pos 0;
}

abbrev first_core : BulletinEventCore
first_core = core_of 1 none root_initialized

abbrev second_core : BulletinEventCore
second_core = core_of 2 (some "hash") registrar_authorized

abbrev root_key : VerifyingKey
root_key = VerifyingKey.ed25519 ed25519_sha256 (zeros 32)

-- Without a proof, an event has a signature of 64 zeros.
abbrev event_of : BulletinEventCore → BulletinEvent
event_of core = record {
  core = core;
  event_hash = "hash";
  signature = write_bytes (zeros 64);
  proof = none;
  crypto_suite = none;
  hash_algorithm = none;
}

abbrev signed : BulletinEventCore → Result BulletinError BulletinEvent
signed core =
    sign sample_primitives sample_formats (pos 0) core
      (SigningKey.ed25519 ed25519_sha256 (zeros 32))

abbrev event_or : BulletinEvent → Result BulletinError BulletinEvent → BulletinEvent
event_or other (ok event) = event
event_or other (err e) = other

abbrev bulletin_of : BulletinEvent → BulletinEvent → Bulletin
bulletin_of first second = record {
  version = "1";
  root_did = "root";
  created_at = pos 0;
  events = first ∷ second ∷ [];
}

abbrev plain : Bulletin
plain = bulletin_of (event_of first_core) (event_of second_core)

abbrev proven : Bulletin
proven =
    bulletin_of (event_or (event_of second_core) (signed first_core))
      (event_or (event_of first_core) (signed second_core))

plain_accepted : verify_hash_chain sample_primitives sample_formats plain root_key ≡ ok tt
unfolding verify_hash_chain verify_from verify_event verify_signature hash_core hash_json_with_suite
    hash_hex verify_bytes suite_of_event
plain_accepted = refl

proven_accepted : verify_hash_chain sample_primitives sample_formats proven root_key ≡ ok tt
unfolding verify_hash_chain verify_from verify_event verify_signature hash_core hash_json_with_suite
    hash_hex verify_payload_with_proof sign build_data_integrity_proof sign_bytes_multibase
    suite_of_signing_key strip_prefix suite_of_event suite_of_proof
proven_accepted = refl

verify_hash_chain_iff_example :
    (verify_hash_chain sample_primitives sample_formats proven root_key ≡ ok tt)
    ↔ IsChain sample_primitives sample_formats root_key 0 none proven.events
verify_hash_chain_iff_example =
    verify_hash_chain_iff sample_primitives sample_formats root_key proven

same_bulletin_example : (cores plain.events ≡ cores proven.events) ⊎ Collision sample_primitives
unfolding sign hash_core hash_json_with_suite hash_hex build_data_integrity_proof
    sign_bytes_multibase suite_of_signing_key
same_bulletin_example =
    same_bulletin sample_primitives sample_formats root_key sample_Faithful read_string
      sample_Quotes plain proven (tt, (tt, tt)) (tt, (tt, tt)) plain_accepted proven_accepted refl
