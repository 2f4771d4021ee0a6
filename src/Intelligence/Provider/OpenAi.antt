-- ===== src/Intelligence/Provider/OpenAi.antt =====
-- internal/intelligence/provider/openai_compatible.go. The JSON texts are parameters.
pub mod Status
pub mod Vectors
use Prim.Native.String.{◌++◌ as join}
use synapse_platform.Prelude.{
  ℕ, Bool, true, false, ◌||◌, String, Option, none, some, List, [], ◌∷◌, if◌then◌else◌, str_eq,
  ◌==◌, ltb, ℤ, pos, negsuc, length, map,
}
use synapse_platform.Intelligence.Provider.{
  ProviderError, unavailable_provider, invalid_response, unsupported_operation, other, wrapped,
  Result, ok, failed, TokenUsage, CompletionRequest, CompletionResponse, EmbedRequest,
  EmbedResponse, ModelProvider,
}
use synapse_platform.Intelligence.Provider.Http.{Http, Response}

abbrev is_empty : String → Bool
is_empty s = str_eq s ""

pub record OpenAiCompatibleConfig : Type 0 where
  pub name : String
  pub base_url : String
  pub api_key_env : String
  pub completion_model : String
  pub embedding_model : String

pub record OaiMessage : Type 0 where
  pub role : String
  pub content : String

pub record OaiChatRequest (F : Type 0) : Type 0 where
  pub model : String
  pub messages : List OaiMessage
  pub temperature : F
  pub max_tokens : ℤ
  pub stream : Bool

pub record OaiChoice : Type 0 where
  pub message : OaiMessage
  pub finish_reason : String

pub record OaiUsage : Type 0 where
  pub prompt_tokens : ℤ
  pub completion_tokens : ℤ
  pub total_tokens : ℤ

pub record OaiChatResponse : Type 0 where
  pub choices : List OaiChoice
  pub usage : OaiUsage

pub record OaiEmbeddingsRequest : Type 0 where
  pub model : String
  pub input : List String

pub record OaiEmbedding (F : Type 0) : Type 0 where
  pub embedding : List F
  pub index : ℤ

pub record OaiEmbeddingsResponse (F : Type 0) : Type 0 where
  pub data_items : List (OaiEmbedding F)
  pub usage : OaiUsage

pub data OaiBody (F : Type 0) : Type 0 where
  chat : OaiChatRequest F → OaiBody F
  embeddings : OaiEmbeddingsRequest → OaiBody F

-- The JSON codec, the test `> 0` of a temperature with its zero, and `strings.TrimRight(s, "/")`.
pub record OaiCodec (F : Type 0) : Type 0 where
  pub marshal : OaiBody F → Option String
  pub decode_chat : String → Option OaiChatResponse
  pub decode_embeddings : String → Option (OaiEmbeddingsResponse F)
  pub is_positive : F → Bool
  pub zero_temperature : F
  pub trim_right_slash : String → String

abbrev pub default_name : String
default_name = "openai_compatible"

unfoldable pub to_token_usage : OaiUsage → TokenUsage
to_token_usage u = record {
  prompt_tokens = u.prompt_tokens;
  completion_tokens = u.completion_tokens;
  total_tokens = u.total_tokens;
}

-- The statuses for which a provider counts as unavailable.
abbrev pub is_gateway_status : ℕ → Bool
is_gateway_status s = s == 503 || (s == 504 || (s == 502 || s == 408))

abbrev pub is_auth_status : ℕ → Bool
is_auth_status s = s == 401 || s == 403

-- The end of `doPost`, from the status on.
unfoldable pub read_response : Response → Result String
read_response resp =
    if is_gateway_status resp.status_code
    then failed (wrapped "openai returned status" unavailable_provider)
    else if is_auth_status resp.status_code
    then failed (wrapped "openai auth failed" unsupported_operation)
    else if resp.status_code == 200
    then elim resp.body [ some b ↦ ok b | none ↦ failed (other "read body") ]
    else failed (other "openai returned status")

module _ {F W : Type 0} (h : Http W) (c : OaiCodec F) where
  -- `NewOpenAICompatibleClient`. The timeout is left to `h`.
  unfoldable pub new_open_ai_compatible_client : OpenAiCompatibleConfig → OpenAiCompatibleConfig
  new_open_ai_compatible_client cfg =
      let url = if is_empty cfg.base_url then "https://api.openai.com" else cfg.base_url in
      record cfg { base_url = c.trim_right_slash url }

  module _ (cfg : OpenAiCompatibleConfig) where
    abbrev pub provider_name : String
    provider_name = if is_empty cfg.name then default_name else cfg.name

    send_request : String → String → Option String → W → Result String × W
    send_request path text token w =
        let (answer, w') = h.send (join cfg.base_url path) token text w in
        elim answer [
          | none ↦ (failed (wrapped "openai request failed" unavailable_provider), w')
          | some resp ↦ (read_response resp, w')
        ]

    with_token : String → String → W → Result String × W
    unfolding send_request
    with_token path text w =
        if is_empty cfg.api_key_env
        then send_request path text none w
        else if is_empty (h.getenv cfg.api_key_env w)
        then (failed (wrapped "api key env is not set" unsupported_operation), w)
        else send_request path text (some (h.getenv cfg.api_key_env w)) w

    unfoldable pub do_post : String → OaiBody F → W → Result String × W
    unfolding with_token
    do_post path body w = elim (c.marshal body) [
      | none ↦ (failed (other "marshal openai request"), w)
      | some text ↦
          if h.makes_request (join cfg.base_url path)
          then with_token path text w
          else (failed (wrapped "create request" unavailable_provider), w)
    ]

    pub chat_request : CompletionRequest F → String → OaiChatRequest F
    chat_request req model = record {
      model = model;
      messages = record { role = "user"; content = req.prompt } ∷ [];
      temperature = if c.is_positive req.temperature then req.temperature else c.zero_temperature;
      max_tokens = elim req.max_tokens [ pos n ↦ pos n | negsuc _ ↦ pos 0 ];
      stream = false;
    }

    read_chat : String → ℕ → Result String → Result CompletionResponse
    read_chat model latency (failed e) = failed e
    read_chat model latency (ok raw) = elim (c.decode_chat raw) [
      | none ↦ failed (wrapped "decode openai chat response" invalid_response)
      | some out ↦ elim out.choices [
        | [] ↦ failed (wrapped "openai chat response had no choices" invalid_response)
        | first ∷ _ ↦ ok (record {
          content = first.message.content;
          model = model;
          provider = provider_name;
          latency_ms = latency;
          token_usage = to_token_usage out.usage;
          raw = raw;
        })
      ]
    ]

    -- The model of the request, or else the configured one.
    abbrev pub model_or : String → String → String
    model_or model fallback = if is_empty model then fallback else model

    unfoldable pub complete : CompletionRequest F → W → Result CompletionResponse × W
    unfolding read_chat chat_request
    complete req w =
        let model = model_or req.model cfg.completion_model in
        if is_empty req.prompt
        then (failed (wrapped "empty prompt" unsupported_operation), w)
        else if is_empty model
        then (failed (wrapped "no completion model configured" unsupported_operation), w)
        else let (raw, w') = do_post "/v1/chat/completions" (chat (chat_request req model)) w in
          (read_chat model (h.since w w') raw, w')

    -- The loop over the items: item `i` of the answer becomes vector `i`, once its index is in range.
    unfoldable pub place : ℕ → List (OaiEmbedding F) → Result (List (List F))
    place n [] = ok []
    place n (item ∷ rest) =
        let later = place n rest in
        elim item.index [
          | negsuc _ ↦ failed (wrapped "embedding index out of range" invalid_response)
          | pos i ↦
              if ltb i n
              then elim later [ ok vs ↦ ok (item.embedding ∷ vs) | failed e ↦ failed e ]
              else failed (wrapped "embedding index out of range" invalid_response)
        ]

    read_embeddings : String → ℕ → ℕ → Result String → Result (EmbedResponse F)
    read_embeddings model inputs latency (failed e) = failed e
    read_embeddings model inputs latency (ok raw) = elim (c.decode_embeddings raw) [
      | none ↦ failed (wrapped "decode openai embeddings response" invalid_response)
      | some out ↦
          if length out.data_items == inputs
          then elim (place (length out.data_items) out.data_items) [
            | failed e ↦ failed e
            | ok vs ↦ ok (record {
              embeddings = vs;
              model = model;
              provider = provider_name;
              latency_ms = latency;
              token_usage = to_token_usage out.usage;
            })
          ]
          else failed (wrapped "wrong number of embeddings" invalid_response)
    ]

    unfoldable pub embed : EmbedRequest → W → Result (EmbedResponse F) × W
    unfolding read_embeddings
    embed req w =
        let model = model_or req.model cfg.embedding_model in
        elim req.input [
          | [] ↦ (failed (wrapped "empty embedding input" unsupported_operation), w)
          | _ ∷ _ ↦
              if is_empty model
              then (failed (wrapped "no embedding model configured" unsupported_operation), w)
              else let (raw, w') =
                  do_post "/v1/embeddings"
                    (embeddings (record { model = model; input = req.input })) w in
                (read_embeddings model (length req.input) (h.since w w') raw, w')
        ]

    -- The client as the router sees it.
    abbrev pub client : ModelProvider F W
    client = record { name = provider_name; complete = complete; embed = embed }
