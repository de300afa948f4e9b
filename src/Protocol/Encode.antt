-- ===== src/Protocol/Encode.antt =====
-- serde's JSON of the challenges and of the signed part of an envelope: the fields that are not left
-- out, in the order of their keys. `rfc3339` is chrono's text of a time.
use oan_protocol_common.Base.{String, Option, none, some}
use oan_protocol_common.Chrono.{Time}
use oan_protocol_common.Json.{Value, string, object, Fields, no_fields, field}
use oan_protocol_common.Protocol.{
  SignedRequestEnvelope, DidControlChallenge, ControllerAuthorizationChallenge,
}

abbrev text : String → String → Fields → Fields
text key s rest = field key (string s) rest

-- a field with `skip_serializing_if = "Option::is_none"`
abbrev text_if : String → Option String → Fields → Fields
text_if key none rest = rest
text_if key (some s) rest = text key s rest

module _ (rfc3339 : Time → String) where
  -- `SignedEnvelopePayload`, which leaves out the proof
  unfoldable pub envelope_payload : SignedRequestEnvelope → Value
  envelope_payload e = object (
      text "aud" e.aud (
        text "bodyHash" e.body_hash (
          text "method" e.method (
            text "path" e.path (
              text "protocolVersion" e.protocol_version (
                text "purpose" e.purpose (
                  text "requestId" e.request_id (
                    text "requestNonce" e.request_nonce
                      (text "requestTimestamp" (rfc3339 e.request_timestamp) no_fields)))))))))

  unfoldable pub control_value : DidControlChallenge → Value
  control_value c = object (
      text "challengeId" c.challenge_id (
        text "didDocumentHash" c.did_document_hash (
          text "draftId" c.draft_id (
            text "expiresAt" (rfc3339 c.expires_at) (
              text "issuedAt" (rfc3339 c.issued_at) (
                text "nonce" c.nonce (
                  text "purpose" c.purpose (
                    text "registrarDid" c.registrar_did (
                      text "subjectDid" c.subject_did
                        (text "verificationMethod" c.verification_method no_fields))))))))))

  unfoldable pub authorization_value : ControllerAuthorizationChallenge → Value
  authorization_value c = object (
      text "challengeId" c.challenge_id (
        text "controllerDid" c.controller_did (
          text "didDocumentHash" c.did_document_hash (
            text "expiresAt" (rfc3339 c.expires_at) (
              text "issuedAt" (rfc3339 c.issued_at) (
                text "metadataHash" c.metadata_hash (
                  text "nonce" c.nonce (
                    text_if "publisherDid" c.publisher_did (
                      text "purpose" c.purpose (
                        text "registrarDid" c.registrar_did (
                          text "resourceDid" c.resource_did
                            (text "verificationMethod" c.verification_method no_fields))))))))))))
