-- ===== src/Negotiation/Signed.antt =====
-- A signed offer is read back from its token.
use obolos.Prelude.{ℕ, ◌≤◌, ◌≡◌, refl, String, true, List, [], ◌∷◌, ◌++◌}
use obolos.Prelude.{some, ok, arith, length, All, all}
use obolos.Prelude.{nat_eq, list_eq}
use obolos.Negotiation.{A2aConfig, OfferPayload, Runtime}
use obolos.Negotiation.Base64.{decode, is_base64url}
use obolos.Negotiation.Base64.RoundTrip.{IsByte, decode-encode, all-encode, length-encode}
use obolos.Negotiation.Schema.{is_offer_payload}
use obolos.Negotiation.Token.{
  sign, split_dots, two_parts, is_signature, read_payload, body_of, signature_of,
}

-- What the runtime promises of one payload: its JSON is some bytes that are read back, and the HMAC of
-- its text is 32 bytes.
pub record IsFaithful (runtime : Runtime) (secret : String) (payload : OfferPayload) : Type 0 where
  pub read : runtime.parse_json (runtime.json payload) ≡ some payload
  pub bytes : All IsByte (runtime.json payload)
  pub some_byte : 1 ≤ length (runtime.json payload)
  pub digest_bytes : All IsByte (runtime.hmac secret (body_of runtime payload))
  pub digest_length : length (runtime.hmac secret (body_of runtime payload)) ≡ 32

split_dots-end : (s : List ℕ) → all is_base64url s ≡ true → split_dots s ≡ s ∷ []
unfolding split_dots
split_dots-end [] h = refl
split_dots-end (c ∷ cs) h = ground (arith, split_dots-end cs)

split_dots-append :
    (b s : List ℕ) → all is_base64url b ≡ true → split_dots (b ++ b'.' ∷ s) ≡ b ∷ split_dots s
unfolding split_dots
split_dots-append [] s h = refl
split_dots-append (c ∷ cs) s h = ground (arith, split_dots-append cs s)

two_parts_lem : (b s : List ℕ) → 1 ≤ length b → 1 ≤ length s → two_parts (b ∷ s ∷ []) ≡ some (b, s)
two_parts_lem [] s h k = absurd (omega arith)
two_parts_lem (x ∷ b) [] h k = absurd (omega arith)
two_parts_lem (x ∷ b) (y ∷ s) h k = refl

module _ (runtime : Runtime) (config : A2aConfig) (p : OfferPayload)
    (faithful : IsFaithful runtime config.offer_secret p) where
  pub body_chars : all is_base64url (body_of runtime p) ≡ true
  body_chars = all-encode (runtime.json p) faithful.bytes

  signature_chars : all is_base64url (signature_of runtime config (body_of runtime p)) ≡ true
  signature_chars = all-encode _ faithful.digest_bytes

  signature-length : length (signature_of runtime config (body_of runtime p)) ≡ 43
  signature-length = omega (
    arith,
    length-encode (runtime.hmac config.offer_secret (body_of runtime p)),
    faithful.digest_length,
  )

  pub token_parts :
      two_parts (split_dots (sign runtime p config).offer_token)
      ≡ some (body_of runtime p, signature_of runtime config (body_of runtime p))
  unfolding sign
  token_parts =
      rw
        (
          split_dots-append (body_of runtime p) (signature_of runtime config (body_of runtime p))
              body_chars,
          split_dots-end _ signature_chars,
        )
        (two_parts_lem (body_of runtime p) (signature_of runtime config (body_of runtime p))
          (omega (arith, length-encode (runtime.json p), faithful.some_byte))
          (omega (arith, signature-length)))

  pub signature-IsSignature : is_signature (signature_of runtime config (body_of runtime p)) ≡ true
  signature-IsSignature = ground (arith, signature-length, signature_chars)

  pub signature-decode :
      decode (signature_of runtime config (body_of runtime p))
      ≡ runtime.hmac config.offer_secret (body_of runtime p)
  signature-decode = decode-encode _ faithful.digest_bytes

  pub payload_read : is_offer_payload p ≡ true → read_payload runtime (body_of runtime p) ≡ ok p
  unfolding read_payload
  payload_read h =
      rw (body_chars, decode-encode (runtime.json p) faithful.bytes, faithful.read, h) refl
