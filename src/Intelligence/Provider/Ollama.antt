-- ===== src/Intelligence/Provider/Ollama.antt =====
-- internal/intelligence/provider/ollama.go. The JSON texts are parameters.
pub mod Batch
use Prim.Native.String.{◌++◌ as join}
use synapse_platform.Prelude.{
  ℕ, Bool, true, false, ◌||◌, String, Option, none, some, List, [], ◌∷◌, if◌then◌else◌, str_eq,
  ◌==◌, ◌+◌, ℤ, pos, negsuc, map,
}
use synapse_platform.Intelligence.Provider.{
  ProviderError, unavailable_provider, invalid_response, unsupported_operation, other, wrapped,
  Result, ok, failed, CompletionRequest, CompletionResponse, EmbedRequest, EmbedResponse,
  ModelProvider,
}
use synapse_platform.Intelligence.Provider.Http.{Http, Response}

abbrev is_empty : String → Bool
is_empty s = str_eq s ""

pub record Client (F : Type 0) : Type 0 where
  pub base_url : String
  pub completion_model : String
  pub embedding_model : String
  pub default_max_tokens : ℤ
  pub default_temp : F

-- `NewOllamaClient`. The timeout is left to the HTTP client.
unfoldable pub new_ollama_client : {F : Type 0} → String → String → String → F → ℤ → Client F
new_ollama_client host completion_model embedding_model temperature max_tokens = record {
  base_url = if is_empty host then "http://localhost:11434" else host;
  completion_model = completion_model;
  embedding_model = embedding_model;
  default_max_tokens = max_tokens;
  default_temp = temperature;
}

pub record GenerateRequest (F : Type 0) : Type 0 where
  pub model : String
  pub prompt : String
  pub stream : Bool
  pub temperature : F
  pub num_predict : ℤ

pub record GenerateResponse : Type 0 where
  pub response : String
  pub done : Bool
  pub prompt_eval_count : ℤ
  pub eval_count : ℤ

pub record EmbeddingsRequest : Type 0 where
  pub model : String
  pub prompt : String

pub data OllamaBody (F : Type 0) : Type 0 where
  generate : GenerateRequest F → OllamaBody F
  embeddings : EmbeddingsRequest → OllamaBody F

-- The JSON codec, the test `== 0` of a temperature, the rounding to `float32`, and the addition of
-- machine integers.
pub record OllamaCodec (F : Type 0) : Type 0 where
  pub marshal : OllamaBody F → Option String
  pub decode_generate : String → Option GenerateResponse
  pub decode_embedding : String → Option (List F)
  pub is_zero : F → Bool
  pub to_float32 : F → F
  pub add : ℤ → ℤ → ℤ

abbrev pub ollama_provider_name : String
ollama_provider_name = "ollama"

-- The end of `doPost`, from the status on.
unfoldable pub read_response : Response → Result String
read_response resp =
    if resp.status_code == 503 || resp.status_code == 504
    then failed (wrapped "ollama returned status" unavailable_provider)
    else if resp.status_code == 200
    then elim resp.body [ some b ↦ ok b | none ↦ failed (other "read body") ]
    else failed (other "ollama returned status")

module _ {F W : Type 0} (h : Http W) (k : OllamaCodec F) (c : Client F) where
  send_request : String → String → W → Result String × W
  send_request path text w =
      let (answer, w') = h.send (join c.base_url path) none text w in
      elim answer [
        | none ↦ (failed (wrapped "ollama request failed" unavailable_provider), w')
        | some resp ↦ (read_response resp, w')
      ]

  unfoldable pub do_post : String → OllamaBody F → W → Result String × W
  unfolding send_request
  do_post path body w = elim (k.marshal body) [
    | none ↦ (failed (other "marshal ollama request"), w)
    | some text ↦
        if h.makes_request (join c.base_url path)
        then send_request path text w
        else (failed (wrapped "create request" unavailable_provider), w)
  ]

  abbrev pub is_positive : ℤ → Bool
  is_positive i = elim i [ pos n ↦ (if n == 0 then false else true) | negsuc _ ↦ false ]

  pub generate_request : CompletionRequest F → String → GenerateRequest F
  generate_request req model = record {
    model = model;
    prompt = req.prompt;
    stream = false;
    temperature = if k.is_zero req.temperature then c.default_temp else req.temperature;
    num_predict = if is_positive req.max_tokens then req.max_tokens else c.default_max_tokens;
  }

  read_generate : String → ℕ → Result String → Result CompletionResponse
  read_generate model latency (failed e) = failed e
  read_generate model latency (ok raw) = elim (k.decode_generate raw) [
    | none ↦ failed (wrapped "decode ollama generate response" invalid_response)
    | some out ↦ ok (record {
      content = out.response;
      model = model;
      provider = ollama_provider_name;
      latency_ms = latency;
      token_usage = record {
        prompt_tokens = out.prompt_eval_count;
        completion_tokens = out.eval_count;
        total_tokens = k.add out.prompt_eval_count out.eval_count;
      };
      raw = raw;
    })
  ]

  abbrev pub model_or : String → String → String
  model_or model fallback = if is_empty model then fallback else model

  unfoldable pub complete : CompletionRequest F → W → Result CompletionResponse × W
  unfolding read_generate generate_request
  complete req w =
      let model = model_or req.model c.completion_model in
      if is_empty req.prompt
      then (failed (wrapped "empty prompt" unsupported_operation), w)
      else if is_empty model
      then (failed (wrapped "no completion model configured" unsupported_operation), w)
      else let (raw, w') = do_post "/api/generate" (generate (generate_request req model)) w in
        (read_generate model (h.since w w') raw, w')

  unfoldable pub read_embedding : Result String → Result (List F)
  read_embedding (failed e) = failed e
  read_embedding (ok raw) = elim (k.decode_embedding raw) [
    | none ↦ failed (wrapped "decode ollama embeddings response" invalid_response)
    | some v ↦ ok (map k.to_float32 v)
  ]

  -- One request of the loop.
  unfoldable pub embed_text : String → String → W → Result (List F) × W
  embed_text model text w =
      let (raw, w') =
        do_post "/api/embeddings" (embeddings (record { model = model; prompt = text })) w in
      (read_embedding raw, w')

  -- The loop over the inputs, which ends at the first failure.
  unfoldable pub embed_all : String → List String → W → Result (List (List F)) × W
  embed_all model [] w = (ok [], w)
  embed_all model (text ∷ texts) w =
      let (r, w') = embed_text model text w in
      let (rs, w'') = embed_all model texts w' in
      elim r [
        | failed e ↦ (failed e, w')
        | ok v ↦ elim rs [ ok vs ↦ (ok (v ∷ vs), w'') | failed e ↦ (failed e, w'') ]
      ]

  -- The token count is a variable of `Embed` that stays 0.
  finish_embed : String → ℕ → Result (List (List F)) → Result (EmbedResponse F)
  finish_embed model latency (failed e) = failed e
  finish_embed model latency (ok vs) = ok (record {
    embeddings = vs;
    model = model;
    provider = ollama_provider_name;
    latency_ms = latency;
    token_usage = record { prompt_tokens = pos 0; completion_tokens = pos 0; total_tokens = pos 0 };
  })

  unfoldable pub embed : EmbedRequest → W → Result (EmbedResponse F) × W
  unfolding finish_embed
  embed req w =
      let model = model_or req.model c.embedding_model in
      elim req.input [
        | [] ↦ (failed (wrapped "empty embedding input" unsupported_operation), w)
        | _ ∷ _ ↦
            if is_empty model
            then (failed (wrapped "no embedding model configured" unsupported_operation), w)
            else let (vs, w') = embed_all model req.input w in
              (finish_embed model (h.since w w') vs, w')
      ]

  -- The client as the router sees it.
  abbrev pub client : ModelProvider F W
  client = record { name = ollama_provider_name; complete = complete; embed = embed }
