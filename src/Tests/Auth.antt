-- ===== src/Tests/Auth.antt =====
-- Tokens: a signing key of 32 bytes, a token library that knows one token, and scopes in both forms.
use synapse_platform.Prelude.{◌≡◌, refl, true, ◌&&◌, ◌||◌, false, some, [], ◌∷◌, map, arith}
use synapse_platform.Prelude.Text.{
  Bytes, codes, bytes_eq, bytes_eq_iff, is_empty_bytes, split, join,
}
use synapse_platform.Auth.{
  Identity, Result, ok, refused, text, array, MapClaims, hmac, Token, Parsed, parsed, parse_error,
  Parser, JwtValidator, new_jwt_validator, key_for, text_items, parse_scopes, validate,
}
use synapse_platform.Auth.Scopes.{parse_scopes-join}
use synapse_platform.Auth.Trust.{Facts, IsDocumented, IsTrusted, validate-IsTrusted}

program : Unit {0}
unfolding bytes_eq split join text_items parse_scopes new_jwt_validator key_for validate
program = tt

parse_scopes-join_example :
    (parse_scopes (text (codes "read:events write")) ≡ codes "read:events" ∷ codes "write" ∷ [])
    × (parse_scopes (array (map (λ q. some q) (codes "read:events" ∷ codes "write" ∷ [])))
        ≡ codes "read:events" ∷ codes "write" ∷ [])
unfolding program
parse_scopes-join_example =
    parse_scopes-join (codes "read:events") (codes "write" ∷ [])
      (
        (refl, (refl, (refl, (refl, (refl, (refl, (refl, (refl, (refl, (refl, (refl, tt))))))))))),
        ((refl, (refl, (refl, (refl, (refl, tt))))), tt),
      )
      (refl, (refl, tt))

abbrev pub secret : Bytes
secret = codes "0123456789abcdef0123456789abcdef"

abbrev pub known : MapClaims
known = record {
  sub = text (codes "u");
  client_id = text (codes "c");
  scope = text (codes "read:events");
}

abbrev pub facts : Facts
facts = record {
  method = λ token. hmac;
  verifies = λ key token. bytes_eq key secret;
  issuer = λ token. codes "iss";
  has_audience = λ audience token. bytes_eq audience (codes "aud");
  is_fresh = λ token. true;
  claims = λ token. known;
}

-- An empty issuer or audience is not checked.
abbrev pub checked_token : Result Bytes → Bytes → Bytes → Parsed
checked_token (refused e) issuer audience = parse_error []
checked_token (ok key) issuer audience = parsed (record {
  valid =
      bytes_eq key secret
      && ((is_empty_bytes issuer || bytes_eq (codes "iss") issuer)
          && (is_empty_bytes audience || bytes_eq audience (codes "aud")));
  claims = some known;
})

abbrev pub library : Parser
library = λ key_of issuer audience token. checked_token (key_of hmac) issuer audience

checked_token_sound :
    (r : Result Bytes) (issuer audience : Bytes) (t : Token)
    → checked_token r issuer audience ≡ parsed t
    → t.valid ≡ true
    → ((key : Bytes) × (r ≡ ok key) × (bytes_eq key secret ≡ true))
      × (is_empty_bytes issuer ≡ false → codes "iss" ≡ issuer)
      × (is_empty_bytes audience ≡ false → bytes_eq audience (codes "aud") ≡ true)
      × (true ≡ true)
checked_token_sound (refused e) issuer audience t h v = cc
checked_token_sound (ok key) issuer audience t h v =
    let same = (bytes_eq_iff (codes "iss") issuer).0 in
    ((key, refl, ground arith), (λ given. same (ground arith)), (λ given. ground arith), refl)

checked_token_claims :
    (r : Result Bytes) (issuer audience : Bytes) (t : Token) (c : MapClaims)
    → checked_token r issuer audience ≡ parsed t
    → t.claims ≡ some c
    → c ≡ known
checked_token_claims (refused e) issuer audience t c h k = cc
checked_token_claims (ok key) issuer audience t c h k = cc

pub library-IsDocumented : IsDocumented facts library
library-IsDocumented = record {
  sound =
      λ key_of issuer audience token t h v. checked_token_sound (key_of hmac) issuer audience t h v;
  same_claims = λ key_of issuer audience token t c h k.
      checked_token_claims (key_of hmac) issuer audience t c h k;
}

abbrev pub validator : JwtValidator
validator = record { secret_key = secret; issuer = codes "iss"; audience = codes "aud" }

abbrev pub user : Identity
user = record { subject = codes "u"; client_id = codes "c"; scopes = codes "read:events" ∷ [] }

validate-IsTrusted_example : IsTrusted facts secret (codes "iss") (codes "aud") (codes "t") user
unfolding program
validate-IsTrusted_example =
    validate-IsTrusted facts library secret (codes "iss") (codes "aud") (codes "t") validator user
      library-IsDocumented refl refl
