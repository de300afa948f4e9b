-- ===== src/Lib.antt =====
-- The Rust crates of the OAN protocol layer, as definitions that compute and theorems about them.
--
-- The program is a library of crates. `crates/oan-did-oan` gives identifiers did:oan:<routing>:<suffix>;
-- `crates/oan-service-security` guards requests between services, with a store of the nonces
-- seen; `crates/oan-core` has the documents and their checks, which parse identifiers; `crates/oan-bulletin`
-- chains the events of the root; `crates/oan-storage` keeps records, jobs and credentials; `crates/oan-crypto`
-- hashes and signs what the others send; `crates/oan-protocol` has the messages, `crates/oan-package` and
-- `crates/oan-credentials` the signed packages and credentials, `crates/oan-publication-events` the requests
-- to publish.
--
--  * Base58, Did: `crates/oan-did-oan/src/lib.rs`. `parse` is `DidOan::parse` with its guards in their
--    order; `base58_suffix` is the loop that both suffix generators run, over blocks of bytes that
--    come from the system's generator or from SHA-256, which are parameters.
--  * Security: `crates/oan-service-security/src/lib.rs`. `verify_and_store_nonce` takes the file of
--    the nonce store and returns it as it leaves it; a poisoned lock and a failing write are fields of
--    `Outside`. `Security.Envelope` has the signed requests, `Security.Control` the proofs of control,
--    `Security.Claims` the claims of a registration. Times are chrono's, in nanoseconds, and unbounded;
--    chrono's panic for a duration out of its range is not modelled.
--  * Core: `crates/oan-core/src/lib.rs`. `Core.Document` has the document types, `Core.Validate` the
--    checks of `DidDocument`, `Core.Profile` the types named `Oan...` with theirs, `Core.Taxonomy` the
--    authorized domains and capability tags. bs58, base64, url, serde_json and ed25519_dalek are the
--    functions of `Core.Codecs`, about which nothing is assumed.
--  * Crypto: `crates/oan-crypto/src/lib.rs`. `Crypto.Canonical` is the text that is hashed and signed,
--    `Crypto.Keys` and `Crypto.Signatures` the keys and proofs, `Crypto.DocumentProof` the proof of a
--    document. A payload is its JSON value; bs58, base64, sha2, sm3, ed25519_dalek, sm2 and ssi are parameters.
--  * Protocol: `crates/oan-protocol/src/lib.rs`. The messages that the other parts check, their JSON in
--    `Protocol.Encode`, and the checks of a registration in `Protocol.Submission`.
--  * Package: `crates/oan-package/src/lib.rs`. One function for each method of `ResourcePackage`; what
--    `json!` makes is `package_value`, what serde makes is a field of `Package.Codecs`.
--  * Credentials: `crates/oan-credentials/src/lib.rs`. `Credentials.Kinds` has the validators,
--    `Credentials.Proofs` the signing and verification, `Credentials.Identity` the methods of
--    `OanIdentity`. A panic is an outcome of its `validate`.
--  * Bulletin: `crates/oan-bulletin/src/lib.rs`. The signing of events and `verify_hash_chain`, over
--    the model of `crates/oan-crypto`. `core_value` is the JSON that serde makes of an event's core;
--    `Formats` has chrono's text of a time and serde_json's text of a number.
--  * Storage: `crates/oan-storage/src/lib.rs`. `Storage.Limits` has the limits and the building of a
--    page; `Storage.Jobs` the tables of leased jobs, a table being its rows by their key and each
--    function what SQLite does for its statements; `Storage.Records` the
--    records of namespaces and their pages; `Storage.Files` the files of credentials, by the
--    text of their path below the root. The name of a table is not modelled, and a clock is an argument.
--  * Publication: `crates/oan-publication-events/src/lib.rs`.
--  * Chrono, Json, BTreeMap, Text, Base: what the program uses of Rust's maps, texts, numbers and
--    results. A text is its code points, `len` counts its bytes in UTF-8. A `BTreeMap` is the list of its entries in the
--    order of the keys, which is also the order of iteration.
--
-- The loops of the suffix generators take fuel, one unit a round; `base58_suffix_lem` says how much is
-- enough. `climb` takes as many rounds as there are domains and two, which `is_descendant_or_same_lem` shows to be enough.
-- Not modelled: HTTP and `crates/oan-client`, PostgreSQL and the connections to a database, serde's derived
-- encoders where none is written out, the JSON-LD proofs of ssi, and `crates/oan-semantic-recommender`.
pub mod Base
pub mod Text
pub mod Base58
pub mod Did
pub mod BTreeMap
pub mod Security
pub mod Tests
pub mod Chrono
pub mod Core
pub mod Json
pub mod Bulletin
pub mod Storage
pub mod Crypto
pub mod Package
pub mod Publication
pub mod Protocol
pub mod Credentials
