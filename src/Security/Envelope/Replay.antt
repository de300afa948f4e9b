-- ===== src/Security/Envelope/Replay.antt =====
-- Envelopes against the store of nonces: a second use of a nonce, and a nonce that a forged envelope
-- has used up.
use mathlib.Core.Path.{subst}
use oan_protocol_common.Base.{
  ◌+◌, ◌≤◌, String, ◌≡◌, ◌≢◌, refl, sym, ap, ◌∙◌, false, List, length, All, Result, ok, err,
}
use oan_protocol_common.Base.Int.{ℤ, ◌≤ℤ◌}
use oan_protocol_common.BTreeMap.{BTreeMap}
use oan_protocol_common.Chrono.{Time}
use oan_protocol_common.Json.{Value}
use oan_protocol_common.Core.Document.{DidDocument}
use oan_protocol_common.Crypto.Primitives.{Primitives}
use oan_protocol_common.Protocol.{SignedRequestEnvelope}
use oan_protocol_common.Security.Error.{SecurityError}
use oan_protocol_common.Security.Nonce.{NonceFile, Outside, read_store}
use oan_protocol_common.Security.Nonce.Store.{IsWellFormed, cutoff}
use oan_protocol_common.Security.Nonce.History.{Call, perform, run, IsInTime}
use oan_protocol_common.Security.Nonce.Replay.{no_replay}
use oan_protocol_common.Security.Envelope.{
  TrustedUpstreamPolicy, TrustedUpstreamContext, check_request, check_signature,
  verify_signed_request_envelope, behind_nonce, behind_request,
}
use oan_protocol_common.Security.Envelope.Accept.{passed_request}

-- a request as it is served: what the system does, the envelope with its body and signer, and the time
pub record Request : Type 0 where
  pub outside : Outside
  pub envelope : SignedRequestEnvelope
  pub payload : Value
  pub signer_did : String
  pub document : DidDocument
  pub now : Time

-- its call on the store of nonces
abbrev call_of : Request → Call
call_of r = record {
  outside = r.outside;
  nonce = r.envelope.request_nonce;
  seen_at = r.envelope.request_timestamp;
  now = r.now;
}

-- The reply is no acceptance, and the file stays as it is.
abbrev pub IsRefused : NonceFile → Result SecurityError TrustedUpstreamContext × NonceFile → Type 0
IsRefused file reply = ((c : TrustedUpstreamContext) → reply.0 ≢ ok c) × (reply.1 ≡ file)

behind-IsRefused :
    (checked : Result SecurityError TrustedUpstreamContext) (e : SecurityError) (file : NonceFile)
    (request : Result SecurityError (Unit {0}))
    → IsRefused file (behind_request (behind_nonce checked (err e, file)) file request)
behind-IsRefused checked e file (ok _) = ((λ c h. cc), refl)
behind-IsRefused checked e file (err d) = ((λ c h. cc), refl)

pub behind_passed :
    (checked : Result SecurityError TrustedUpstreamContext)
    (call : Result SecurityError (Unit {0}) × NonceFile) (file : NonceFile)
    → call.0 ≡ ok tt
    → behind_request (behind_nonce checked call) file (ok tt) ≡ (checked, call.1)
behind_passed checked (ok _, left) file h = refl
behind_passed checked (err e, left) file h = cc

module _ (primitives : Primitives) (rfc3339 : Time → String) (policy : TrustedUpstreamPolicy) where
  abbrev ttl : ℤ
  ttl = policy.nonce_ttl_seconds

  abbrev pub serve : NonceFile → Request → Result SecurityError TrustedUpstreamContext × NonceFile
  serve file r =
      verify_signed_request_envelope primitives rfc3339 r.outside file r.envelope r.payload
        r.signer_did r.document policy r.now

  serve-IsRefused :
      (file : NonceFile) (r : Request) (e : SecurityError)
      → perform ttl file (call_of r) ≡ (err e, file)
      → IsRefused file (serve file r)
  unfolding verify_signed_request_envelope
  serve-IsRefused file r e h = rw h (
      behind-IsRefused
        (check_signature primitives rfc3339 r.envelope r.payload r.signer_did r.document) e file
        (check_request r.envelope policy r.now))

  serve_passed :
      (file : NonceFile) (r : Request)
      → check_request r.envelope policy r.now ≡ ok tt
      → (perform ttl file (call_of r)).0 ≡ ok tt
      → serve file r ≡ (
        check_signature primitives rfc3339 r.envelope r.payload r.signer_did r.document,
        (perform ttl file (call_of r)).1,
      )
  unfolding verify_signed_request_envelope
  serve_passed file r request stored = rw request (behind_passed _ _ file stored)

  -- A file from which a request's nonce was taken, and the conditions under which it stays taken.
  pub record IsTaken (file : NonceFile) (first again : Request) (between : List Call) : Type 0 where
    pub store : BTreeMap Time
    pub well_formed : IsWellFormed file
    pub held : read_store file ≡ ok store
    pub room : length store + 1 + length between ≤ 10_000
    pub in_time : cutoff first.now ttl ≤ℤ first.envelope.request_timestamp
    pub between_in_time : All (IsInTime ttl first.envelope.request_timestamp) between
    pub same_nonce : again.envelope.request_nonce ≡ first.envelope.request_nonce
    pub sound : again.outside.poisoned ≡ false
    pub again_in_time : IsInTime ttl first.envelope.request_timestamp (call_of again)

  IsTaken-IsRefused :
      (file : NonceFile) (first again : Request) (between : List Call)
      → IsTaken file first again between
      → (perform ttl file (call_of first)).0 ≡ ok tt
      → IsRefused
          (run ttl (perform ttl file (call_of first)).1 between)
          (serve (run ttl (perform ttl file (call_of first)).1 between) again)
  IsTaken-IsRefused file first again between t stored = serve-IsRefused _ again _ (
      no_replay ttl file (call_of first) (call_of again) between t.store t.well_formed t.held t.room
        stored t.in_time t.between_in_time t.same_nonce t.sound t.again_in_time)

  -- After an envelope that is accepted, a later envelope with the same nonce is not accepted and
  -- leaves the store's file as it is, whatever calls on the store come between, under the
  -- conditions of `IsTaken`: the first timestamp is within its time to live at each of these
  -- calls, the writes succeed, the last lock is not poisoned, and the store and the calls stay
  -- within 10,000 nonces.
  pub replayed_envelope :
      (file : NonceFile) (first again : Request) (between : List Call)
      (context : TrustedUpstreamContext)
      → IsTaken file first again between
      → (serve file first).0 ≡ ok context
      → IsRefused
          (run ttl (serve file first).1 between)
          (serve (run ttl (serve file first).1 between) again)
  replayed_envelope file first again between context t accepted =
      let (request, stored) =
        passed_request primitives rfc3339 first.outside file first.envelope first.payload
          first.signer_did first.document policy first.now context accepted in
      let same = serve_passed file first request stored in
      subst (λ (f : NonceFile). IsRefused (run ttl f between) (serve (run ttl f between) again))
        (sym (ap (λ (r : Result SecurityError TrustedUpstreamContext × NonceFile). r.1) same))
        (IsTaken-IsRefused file first again between t stored)

  -- An envelope whose request is as expected, whose nonce is stored and whose signature is refused
  -- gets the error of its signature, and after it an envelope with its nonce is not accepted,
  -- however it is signed, under the conditions of `IsTaken`.
  pub forged_envelope :
      (file : NonceFile) (forged genuine : Request) (between : List Call) (e : SecurityError)
      → IsTaken file forged genuine between
      → check_request forged.envelope policy forged.now ≡ ok tt
      → (perform ttl file (call_of forged)).0 ≡ ok tt
      → check_signature primitives rfc3339 forged.envelope forged.payload forged.signer_did
          forged.document
        ≡ err e
      → ((serve file forged).0 ≡ err e)
        × IsRefused
            (run ttl (serve file forged).1 between)
            (serve (run ttl (serve file forged).1 between) genuine)
  forged_envelope file forged genuine between e t request stored unsigned =
      let same = serve_passed file forged request stored in
      (
        ap (λ (r : Result SecurityError TrustedUpstreamContext × NonceFile). r.0) same ∙ unsigned,
        subst (λ (f : NonceFile). IsRefused (run ttl f between) (serve (run ttl f between) genuine))
            (sym (ap (λ (r : Result SecurityError TrustedUpstreamContext × NonceFile). r.1) same))
            (IsTaken-IsRefused file forged genuine between t stored),
      )
