-- ===== src/Auth/Trust.antt =====
-- What is known of a token that `Validate` accepted.
use synapse_platform.Prelude.{
  ltb, ◌≡◌, refl, sym, subst, Bool, true, false, some, Option-cases, inl, inr, length, arith,
}
use synapse_platform.Prelude.Text.{Bytes, is_empty_bytes}
use synapse_platform.Auth.{
  Identity, Result, ok, MapClaims, Method, hmac, other_method, Token, Parsed, parsed, parse_error,
  Parser, JwtValidator, new_jwt_validator, parse_scopes, text_claim, key_for, read_claims, accept,
  validate,
}

-- What is true of a token, independently of this program.
pub record Facts : Type 0 where
  pub method : Bytes → Method
  pub verifies : Bytes → Bytes → Bool
  pub issuer : Bytes → Bytes
  pub has_audience : Bytes → Bytes → Bool
  pub is_fresh : Bytes → Bool
  pub claims : Bytes → MapClaims

-- What golang-jwt documents of `Parse`: a token that it returns as valid verifies under the key
-- that the key function gave for its method and has not expired. An issuer or an audience that is
-- asked for as an empty text is not looked at; any other one is the token's. The claims are those
-- of the token.
pub record IsDocumented (f : Facts) (parse : Parser) : Type 0 where
  pub sound :
      (key_of : Method → Result Bytes) (issuer audience token : Bytes) (t : Token)
      → parse key_of issuer audience token ≡ parsed t
      → t.valid ≡ true
      → ((key : Bytes) × (key_of (f.method token) ≡ ok key) × (f.verifies key token ≡ true))
        × (is_empty_bytes issuer ≡ false → f.issuer token ≡ issuer)
        × (is_empty_bytes audience ≡ false → f.has_audience audience token ≡ true)
        × (f.is_fresh token ≡ true)
  pub same_claims :
      (key_of : Method → Result Bytes) (issuer audience token : Bytes) (t : Token) (c : MapClaims)
      → parse key_of issuer audience token ≡ parsed t
      → t.claims ≡ some c
      → c ≡ f.claims token

pub record IsTrusted (f : Facts) (key issuer audience token : Bytes) (i : Identity) : Type 0 where
  pub long_key : ltb (length key) 32 ≡ false
  pub issuer_given : is_empty_bytes issuer ≡ false
  pub audience_given : is_empty_bytes audience ≡ false
  pub signed_by_hmac : f.method token ≡ hmac
  pub verified : f.verifies key token ≡ true
  pub same_issuer : f.issuer token ≡ issuer
  pub for_audience : f.has_audience audience token ≡ true
  pub fresh : f.is_fresh token ≡ true
  pub subject : text_claim (f.claims token).sub ≡ some i.subject
  pub client_id : text_claim (f.claims token).client_id ≡ some i.client_id
  pub scopes : i.scopes ≡ parse_scopes (f.claims token).scope

-- What `Validate` read from the parsed token.
accepted :
    (v : JwtValidator) (p : Parsed) {i : Identity}
    → accept v p ≡ ok i
    → (t : Token) × (c : MapClaims) × (p ≡ parsed t)
      × (t.valid ≡ true)
      × (t.claims ≡ some c)
      × (text_claim c.sub ≡ some i.subject)
      × (text_claim c.client_id ≡ some i.client_id)
      × (i.scopes ≡ parse_scopes c.scope)
unfolding accept read_claims
accepted v (parse_error e) h = cc
accepted v (parsed t) h = elim (Option-cases t.claims) [
  | inl none_there ↦ absurd (ground arith)
  | inr (c, there) ↦ (t, c, refl, ground arith, there, ground arith, ground arith, ground arith)
]

hmac_key :
    (v : JwtValidator) (m : Method) {key : Bytes}
    → key_for v m ≡ ok key
    → (m ≡ hmac) × (key ≡ v.secret_key)
unfolding key_for
hmac_key v hmac h = (refl, cc)
hmac_key v other_method h = cc

made_of :
    (key issuer audience : Bytes) {v : JwtValidator}
    → new_jwt_validator key issuer audience ≡ ok v
    → (v.secret_key ≡ key)
      × (v.issuer ≡ issuer)
      × (v.audience ≡ audience)
      × (ltb (length key) 32 ≡ false)
      × (is_empty_bytes issuer ≡ false)
      × (is_empty_bytes audience ≡ false)
unfolding new_jwt_validator
made_of key issuer audience h =
    (ground arith, ground arith, ground arith, ground arith, ground arith, ground arith)

-- A validator that `NewJWTValidator` made has a secret of at least 32 bytes. Every token from which
-- its `Validate` returns an identity is signed by HMAC with that secret, has the issuer and the
-- audience of the validator, which are not empty, and has not expired; the identity has the token's
-- subject, client and scopes, and neither the subject nor the client is empty.
pub validate-IsTrusted :
    (f : Facts) (parse : Parser) (key issuer audience token : Bytes) (v : JwtValidator)
    (i : Identity)
    → IsDocumented f parse
    → new_jwt_validator key issuer audience ≡ ok v
    → validate v parse token ≡ ok i
    → IsTrusted f key issuer audience token i
unfolding validate
validate-IsTrusted f parse key issuer audience token v i doc made valid =
    let (same_key, same_issuer, same_audience, long, named, aimed) =
      made_of key issuer audience made in
    let (t, c, p, good, cs, sub, client, scopes) =
      accepted v (parse (key_for v) v.issuer v.audience token) valid in
    let ((k, given, verified), from, aud, fresh) =
      doc.sound (key_for v) v.issuer v.audience token t p good in
    let issued : f.issuer token ≡ v.issuer =
      from (subst (λ x. is_empty_bytes x ≡ false) (sym same_issuer) named) in
    let meant : f.has_audience v.audience token ≡ true =
      aud (subst (λ x. is_empty_bytes x ≡ false) (sym same_audience) aimed) in
    let (m, secret) = hmac_key v (f.method token) given in
    let claims : c ≡ f.claims token =
      doc.same_claims (key_for v) v.issuer v.audience token t c p cs in
    record {
      long_key = long;
      issuer_given = named;
      audience_given = aimed;
      signed_by_hmac = m;
      verified = cc;
      same_issuer = cc;
      for_audience = cc;
      fresh = fresh;
      subject = cc;
      client_id = cc;
      scopes = cc;
    }
