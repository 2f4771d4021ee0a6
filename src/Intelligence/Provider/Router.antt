-- ===== src/Intelligence/Provider/Router.antt =====
-- internal/intelligence/provider/router.go. A Go map is a list of entries, in the order in which a
-- `range` visits them.
pub mod Accepted
pub mod Routes
use synapse_platform.Prelude.{
  Bool, true, false, String, Option, none, some, List, [], ◌∷◌, if◌then◌else◌, str_eq,
}
use synapse_platform.Intelligence.Provider.{
  ProviderError, unsupported_operation, other, wrapped, is_unavailable, Result, ok, failed,
  StringMap, get, get_string, CompletionRequest, CompletionResponse, EmbedRequest, EmbedResponse,
  ModelProvider,
}

pub record RouterConfig : Type 0 where
  pub default_completion_provider : String
  pub default_embedding_provider : String
  pub fallbacks : StringMap String

abbrev pub is_empty : String → Bool
is_empty s = str_eq s ""

-- The first error of a chain of checks.
infixr 4 ◌or_else◌
abbrev pub ◌or_else◌ : Option ProviderError → Option ProviderError → Option ProviderError
some e or_else b = some e
none or_else b = b

-- An entry can hold a nil provider.
abbrev pub Providers : Type 0 → Type 0 → Type 0
Providers F W = StringMap (Option (ModelProvider F W))

abbrev pub seen_before : String → List String → Bool
seen_before name [] = false
seen_before name (x ∷ xs) = if str_eq name x then true else seen_before name xs

pub record Router (F W : Type 0) : Type 0 where
  pub providers : Providers F W
  pub default_completion : String
  pub default_embedding : String
  pub fallbacks : StringMap String

-- What the two operations do with the provider they call; calling a nil provider panics.
abbrev pub Call : Type 0 → Type 0 → Type 0 → Type 0
Call F W A = ModelProvider F W → W → Result A × W

abbrev pub Routed : Type 0 → Type 0 → Type 0
Routed W A = Option (Result A) × W

module _ {F W : Type 0} where
  pub check_provider : String → Option (ModelProvider F W) → List String → Option ProviderError
  check_provider name none seen = some (other "provider is nil")
  check_provider name (some p) seen =
      if is_empty p.name
      then some (other "empty Name()")
      else if str_eq p.name name
      then (if seen_before name seen then some (other "duplicate provider name") else none)
      else some (other "provider key does not match its Name()")

  pub check_providers : Providers F W → List String → Option ProviderError
  check_providers [] seen = none
  check_providers ((name, p) ∷ rest) seen =
      check_provider name p seen or_else check_providers rest (name ∷ seen)

  abbrev pub registered : String → Providers F W → Bool
  registered name ps = elim (get name ps) [ some _ ↦ true | none ↦ false ]

  pub check_default : String → String → Providers F W → Option ProviderError
  check_default kind name ps =
      if is_empty name then none else if registered name ps then none else some (other kind)

  pub check_fallbacks : StringMap String → Providers F W → Option ProviderError
  check_fallbacks [] ps = none
  check_fallbacks ((primary, fb) ∷ rest) ps =
      if str_eq primary fb
      then some (other "fallback points to itself")
      else if registered fb ps
      then check_fallbacks rest ps
      else some (other "fallback is not registered")

  check_config : Providers F W → RouterConfig → Option ProviderError
  unfolding check_providers check_provider check_default check_fallbacks
  check_config [] cfg = some (other "router requires at least one provider")
  check_config (p ∷ ps) cfg =
      check_providers (p ∷ ps) []
      or_else check_default "default completion provider is not registered"
          cfg.default_completion_provider (p ∷ ps)
      or_else check_default "default embedding provider is not registered"
          cfg.default_embedding_provider (p ∷ ps)
      or_else check_fallbacks cfg.fallbacks (p ∷ ps)

  abbrev pub make_router : Providers F W → RouterConfig → Router F W
  make_router ps cfg = record {
    providers = ps;
    default_completion = cfg.default_completion_provider;
    default_embedding = cfg.default_embedding_provider;
    fallbacks = cfg.fallbacks;
  }

  unfoldable pub new_router : Providers F W → RouterConfig → Result (Router F W)
  unfolding check_config
  new_router ps cfg = elim (check_config ps cfg) [
    | some e ↦ failed e
    | none ↦ ok (make_router ps cfg)
  ]

  -- A map that is nil and one that is empty read alike. A nil provider is an entry like another.
  unfoldable pub select_provider :
      Router F W → StringMap String → String → Result (Option (ModelProvider F W))
  select_provider r meta default_name =
      let requested = get_string "provider" meta in
      let name = if is_empty requested then default_name else requested in
      if is_empty name
      then failed (wrapped "no provider requested and no default configured" unsupported_operation)
      else elim (get name r.providers) [
        | some p ↦ ok p
        | none ↦ failed (wrapped "provider is not registered" unsupported_operation)
      ]

  unfoldable pub fallback_for :
      Router F W → String → ProviderError → Option (Option (ModelProvider F W))
  fallback_for r primary_name err =
      if is_unavailable err
      then elim (get primary_name r.fallbacks) [
        | some fb_name ↦ get fb_name r.providers
        | none ↦ none
      ]
      else none

  abbrev pub call : {A : Type 0} → Call F W A → Option (ModelProvider F W) → W → Routed W A
  call op none w = (none, w)
  call op (some p) w = let (r, w') = op p w in (some r, w')

  try_fallback : {A : Type 0} → Call F W A → Router F W → String → Result A × W → Routed W A
  try_fallback op r name (ok a, w) = (some (ok a), w)
  try_fallback op r name (failed e, w) = elim (fallback_for r name e) [
    | some fb ↦ call op fb w
    | none ↦ (some (failed e), w)
  ]

  route : {A : Type 0} → Call F W A → Router F W → StringMap String → String → W → Routed W A
  unfolding try_fallback
  route op r meta default_name w = elim (select_provider r meta default_name) [
    | failed e ↦ (some (failed e), w)
    | ok none ↦ (none, w)
    | ok (some primary) ↦ try_fallback op r primary.name (op primary w)
  ]

  unfoldable pub complete : Router F W → CompletionRequest F → W → Routed W CompletionResponse
  unfolding route
  complete r req w = route (λ p. p.complete req) r req.metadata r.default_completion w

  unfoldable pub embed : Router F W → EmbedRequest → W → Routed W (EmbedResponse F)
  unfolding route
  embed r req w = route (λ p. p.embed req) r req.metadata r.default_embedding w
