-- ===== src/Intelligence/Provider.antt =====
-- internal/intelligence/provider/types.go and errors.go, and the interface `ModelProvider` of router.go.
-- `W` is the state of everything outside the process that a provider can talk to.
pub mod Http
pub mod OpenAi
pub mod Ollama
pub mod Router
use synapse_platform.Prelude.{
  ◌≡◌, refl, ◌⊎◌, inl, inr, ℕ, Bool, true, false, String, Option, none, some, List, [], ◌∷◌,
  if◌then◌else◌, str_eq, ◌==◌, ℤ,
}

pub data ProviderError : Type 0 where
  unavailable_provider invalid_response unsupported_operation : ProviderError
  other : String → ProviderError
  wrapped : String → ProviderError → ProviderError

-- `errors.Is(err, ErrUnavailableProvider)`
unfoldable pub is_unavailable : ProviderError → Bool
is_unavailable unavailable_provider = true
is_unavailable invalid_response = false
is_unavailable unsupported_operation = false
is_unavailable (other m) = false
is_unavailable (wrapped m e) = is_unavailable e

pub data Result {ℓ} (A : Type ℓ) : Type ℓ where
  ok : A → Result A
  failed : ProviderError → Result A

abbrev pub StringMap : Type 0 → Type 0
StringMap V = List (String × V)

unfoldable pub get {ℓ} : {V : Type ℓ} → String → List (String × V) → Option V
get k [] = none
get k ((j, v) ∷ rest) = if str_eq k j then some v else get k rest

-- Indexing a map of strings: a missing key gives the empty text.
unfoldable pub get_string : String → StringMap String → String
unfolding get
get_string k m = elim (get k m) [ some v ↦ v | none ↦ "" ]

pub record CompletionRequest (F : Type 0) : Type 0 where
  pub model : String
  pub prompt : String
  pub max_tokens : ℤ
  pub temperature : F
  pub metadata : StringMap String

pub record TokenUsage : Type 0 where
  pub prompt_tokens : ℤ
  pub completion_tokens : ℤ
  pub total_tokens : ℤ

pub record CompletionResponse : Type 0 where
  pub content : String
  pub model : String
  pub token_usage : TokenUsage
  pub latency_ms : ℕ
  pub provider : String
  pub raw : String

pub record EmbedRequest : Type 0 where
  pub model : String
  pub input : List String
  pub metadata : StringMap String

pub record EmbedResponse (F : Type 0) : Type 0 where
  pub embeddings : List (List F)
  pub model : String
  pub token_usage : TokenUsage
  pub latency_ms : ℕ
  pub provider : String

pub record ModelProvider (F W : Type 0) : Type 0 where
  pub name : String
  pub complete : CompletionRequest F → W → Result CompletionResponse × W
  pub embed : EmbedRequest → W → Result (EmbedResponse F) × W

pub Result-cases {ℓ} :
    {A : Type ℓ} (r : Result A) → ((e : ProviderError) × (r ≡ failed e)) ⊎ ((a : A) × (r ≡ ok a))
Result-cases (ok a) = inr (a, refl)
Result-cases (failed e) = inl (e, refl)
