-- ===== src/Auth.antt =====
-- internal/auth: auth.go, jwt.go and error.go. The package golang-jwt is a parameter.
pub mod Trust
pub mod Scopes
use synapse_platform.Prelude.{
  ℕ, ltb, Bool, true, false, ◌&&◌, not, String, Option, none, some, List, [], ◌∷◌, if◌then◌else◌,
  length,
}
use synapse_platform.Prelude.Text.{Bytes, codes, bytes_eq, is_empty_bytes, split}

pub record Identity : Type 0 where
  pub subject : Bytes
  pub client_id : Bytes
  pub scopes : List Bytes

-- The constants `ErrType…` and `ErrorOccurredBecauseOf` of the package.
pub data TypeOfError : Type 0 where
  token_expired token_not_yet_valid token_invalid token_wrong_issuer : TypeOfError
  token_wrong_audience missing_identity configuration no_identity : TypeOfError

pub data Reason : Type 0 where
  expired not_yet_valid signature_invalid malformed wrong_algorithm wrong_issuer : Reason
  wrong_audience missing_sub missing_client_id invalid_identity_type : Reason
  secret_key_too_short empty_issuer empty_audience no_identity_in_context : Reason

-- The errors of golang-jwt that the code asks for.
pub data JwtSentinel : Type 0 where
  err_token_expired err_token_not_valid_yet err_signature_invalid : JwtSentinel
  err_invalid_issuer err_invalid_audience err_unverifiable : JwtSentinel

-- An error of golang-jwt: the sentinels that `errors.Is` finds in it.
abbrev pub JwtError : Type 0
JwtError = List JwtSentinel

abbrev pub sentinel_eq : JwtSentinel → JwtSentinel → Bool
sentinel_eq err_token_expired err_token_expired = true
sentinel_eq err_token_not_valid_yet err_token_not_valid_yet = true
sentinel_eq err_signature_invalid err_signature_invalid = true
sentinel_eq err_invalid_issuer err_invalid_issuer = true
sentinel_eq err_invalid_audience err_invalid_audience = true
sentinel_eq err_unverifiable err_unverifiable = true
sentinel_eq _ _ = false

abbrev pub error_is : JwtSentinel → JwtError → Bool
error_is s [] = false
error_is s (x ∷ xs) = if sentinel_eq s x then true else error_is s xs

-- `identity` is the claim that the error names; `cause` is the error of golang-jwt, if there is one.
pub record ValidationError : Type 0 where
  pub type_of_error : TypeOfError
  pub because : Reason
  pub identity : String
  pub cause : Option JwtError

pub data Result (A : Type 0) : Type 0 where
  ok : A → Result A
  refused : ValidationError → Result A

abbrev pub refuse : {A : Type 0} → TypeOfError → Reason → String → Option JwtError → Result A
refuse t b i c = refused (record { type_of_error = t; because = b; identity = i; cause = c })

-- `IdentityFromContext`
unfoldable pub identity_from_context : Option Identity → Result Identity
identity_from_context (some i) = ok i
identity_from_context none = refuse no_identity no_identity_in_context "" none

abbrev pub contains : List Bytes → Bytes → Bool
contains [] s = false
contains (x ∷ xs) s = if bytes_eq x s then true else contains xs s

-- `Identity.HasScope`
unfoldable pub has_scope : Identity → Bytes → Bool
has_scope i scope = contains i.scopes scope

-- A claim is a JSON value: missing, a text, an array, of which `none` is an item that is no text, or
-- another value.
pub data Claim : Type 0 where
  missing : Claim
  text : Bytes → Claim
  array : List (Option Bytes) → Claim
  other_value : Claim

pub record MapClaims : Type 0 where
  pub sub : Claim
  pub client_id : Claim
  pub scope : Claim

-- The signing methods that the key function tells apart.
pub data Method : Type 0 where
  hmac other_method : Method

-- `claims` is `none` if they are no `MapClaims`.
pub record Token : Type 0 where
  pub valid : Bool
  pub claims : Option MapClaims

pub data Parsed : Type 0 where
  parsed : Token → Parsed
  parse_error : JwtError → Parsed

-- `jwt.Parse` with the options `WithExpirationRequired`, `WithIssuer` and `WithAudience`: a function
-- of the key function, the issuer, the audience and the token.
abbrev pub Parser : Type 0
Parser = (Method → Result Bytes) → Bytes → Bytes → Bytes → Parsed

pub record JwtValidator : Type 0 where
  pub secret_key : Bytes
  pub issuer : Bytes
  pub audience : Bytes

unfoldable pub new_jwt_validator : Bytes → Bytes → Bytes → Result JwtValidator
new_jwt_validator key issuer audience =
    if ltb (length key) 32
    then refuse configuration secret_key_too_short "" none
    else if is_empty_bytes issuer
    then refuse configuration empty_issuer "" none
    else if is_empty_bytes audience
    then refuse configuration empty_audience "" none
    else ok (record { secret_key = key; issuer = issuer; audience = audience })

-- `wrapJWTError`; `none` is a nil error.
unfoldable pub wrap_jwt_error : Option JwtError → ValidationError
wrap_jwt_error none = record {
  type_of_error = token_invalid;
  because = malformed;
  identity = "";
  cause = none;
}
wrap_jwt_error (some e) =
    let wrap : TypeOfError → Reason → String → ValidationError =
      λ t b i. record { type_of_error = t; because = b; identity = i; cause = some e } in
    if error_is err_token_expired e
    then wrap token_expired expired ""
    else if error_is err_token_not_valid_yet e
    then wrap token_not_yet_valid not_yet_valid ""
    else if error_is err_signature_invalid e
    then wrap token_invalid signature_invalid ""
    else if error_is err_invalid_issuer e
    then wrap token_wrong_issuer wrong_issuer "iss"
    else if error_is err_invalid_audience e
    then wrap token_wrong_audience wrong_audience "aud"
    else if error_is err_unverifiable e
    then wrap token_invalid wrong_algorithm ""
    else wrap token_invalid malformed ""

-- The texts of an array that are not empty.
unfoldable pub text_items : List (Option Bytes) → List Bytes
text_items [] = []
text_items (none ∷ items) = text_items items
text_items (some s ∷ items) =
    let rest = text_items items in if is_empty_bytes s then rest else s ∷ rest

unfoldable pub parse_scopes : Claim → List Bytes
unfolding text_items
parse_scopes missing = []
parse_scopes (text s) = if is_empty_bytes s then [] else split b' ' s
parse_scopes (array items) = text_items items
parse_scopes other_value = []

-- A claim that is a text and not empty.
abbrev pub text_claim : Claim → Option Bytes
text_claim missing = none
text_claim (text []) = none
text_claim (text (c ∷ cs)) = some (c ∷ cs)
text_claim (array items) = none
text_claim other_value = none

module _ (v : JwtValidator) where
  -- The key function that `Validate` gives to `jwt.Parse`.
  unfoldable pub key_for : Method → Result Bytes
  key_for hmac = ok v.secret_key
  key_for other_method = refuse token_invalid wrong_algorithm "" none

  read_claims : Option MapClaims → Result Identity
  read_claims none = refuse token_invalid invalid_identity_type "" none
  read_claims (some c) = elim (text_claim c.sub) [
    | none ↦ refuse missing_identity missing_sub "sub" none
    | some sub ↦ elim (text_claim c.client_id) [
      | none ↦ refuse missing_identity missing_client_id "client_id" none
      | some id ↦ ok (record { subject = sub; client_id = id; scopes = parse_scopes c.scope })
    ]
  ]

  -- The token that was parsed, once it is checked to be valid.
  accept : Parsed → Result Identity
  unfolding read_claims
  accept (parse_error e) = refused (wrap_jwt_error (some e))
  accept (parsed t) = if t.valid then read_claims t.claims else refused (wrap_jwt_error none)

  unfoldable pub validate : Parser → Bytes → Result Identity
  unfolding accept
  validate parse token = accept (parse key_for v.issuer v.audience token)
