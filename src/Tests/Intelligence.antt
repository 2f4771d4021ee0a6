-- ===== src/Tests/Intelligence.antt =====
-- The providers and the router: the main provider answers 503 to a completion and its vectors come
-- out of order; the other one answers.
use synapse_platform.Prelude.{
  ℕ, ◌≡◌, refl, true, List, [], ◌∷◌, none, some, String, All, length, map, if◌then◌else◌, str_eq,
  ◌==◌, ltb, pos,
}
use synapse_platform.Intelligence.Provider.{
  ok, get, get_string, is_unavailable, CompletionRequest, EmbedRequest, EmbedResponse,
}
use synapse_platform.Intelligence.Provider.Http.{Http}
use synapse_platform.Intelligence.Provider.OpenAi as OpenAi
use synapse_platform.Intelligence.Provider.OpenAi.{
  OpenAiCompatibleConfig, OaiCodec, OaiEmbeddingsResponse,
}
use synapse_platform.Intelligence.Provider.OpenAi.Status.{needs_fallback, complete-needs_fallback}
use synapse_platform.Intelligence.Provider.OpenAi.Vectors.{InRange, posted, embed-in_order}
use synapse_platform.Intelligence.Provider.Ollama as Ollama
use synapse_platform.Intelligence.Provider.Ollama.{Client, OllamaCodec}
use synapse_platform.Intelligence.Provider.Ollama.Batch.{Calls, embed-Calls}
use synapse_platform.Intelligence.Provider.Router.{
  RouterConfig, Providers, Router, make_router, new_router, select_provider, fallback_for, complete,
  embed,
}
use synapse_platform.Intelligence.Provider.Router.Routes.{Route, new_router-Route}

program : Unit {0}
unfolding get get_string is_unavailable new_router select_provider fallback_for complete embed
    OpenAi.complete OpenAi.embed OpenAi.do_post OpenAi.place OpenAi.read_response
    OpenAi.to_token_usage Ollama.complete Ollama.embed Ollama.embed_all Ollama.embed_text
    Ollama.do_post Ollama.read_response Ollama.read_embedding
program = tt

-- The state of the world is the list of the URLs called.
abbrev http : Http (List String)
http = record {
  makes_request = λ url. true;
  send = λ url token text log. (
    (if str_eq url "https://api/v1/chat/completions"
        then some (record { status_code = 503; body = none })
        else some (record { status_code = 200; body = some "raw" })),
    url ∷ log,
  );
  getenv = λ name log. "secret";
  since = λ before now. 1;
}

abbrev usage : OpenAi.OaiUsage
usage = record { prompt_tokens = pos 1; completion_tokens = pos 2; total_tokens = pos 3 }

abbrev swapped : OaiEmbeddingsResponse ℕ
swapped = record {
  data_items =
      record { embedding = 11 ∷ []; index = pos 1 }
      ∷ record { embedding = 10 ∷ []; index = pos 0 }
      ∷ [];
  usage = usage;
}

abbrev oai_codec : OaiCodec ℕ
oai_codec = record {
  marshal = λ body. some "body";
  decode_chat = λ text. none;
  decode_embeddings = λ text. some swapped;
  is_positive = λ t. ltb 0 t;
  zero_temperature = 0;
  trim_right_slash = λ s. s;
}

abbrev ollama_codec : OllamaCodec ℕ
ollama_codec = record {
  marshal = λ body. some "body";
  decode_generate = λ text.
      some
        (record { response = "fine"; done = true; prompt_eval_count = pos 1; eval_count = pos 1 });
  decode_embedding = λ text. some (7 ∷ []);
  is_zero = λ t. t == 0;
  to_float32 = λ t. t;
  add = λ a b. a;
}

abbrev config : OpenAiCompatibleConfig
config = record {
  name = "main";
  base_url = "https://api";
  api_key_env = "KEY";
  completion_model = "m";
  embedding_model = "e";
}

abbrev local : Client ℕ
local = record {
  base_url = "http://local";
  completion_model = "m";
  embedding_model = "e";
  default_max_tokens = pos 9;
  default_temp = 1;
}

abbrev providers : Providers ℕ (List String)
providers =
    ("main", some (OpenAi.client http oai_codec config))
    ∷ ("ollama", some (Ollama.client http ollama_codec local))
    ∷ []

abbrev routes : RouterConfig
routes = record {
  default_completion_provider = "main";
  default_embedding_provider = "main";
  fallbacks = ("main", "ollama") ∷ [];
}

abbrev router : Router ℕ (List String)
router = make_router providers routes

abbrev question : CompletionRequest ℕ
question = record { model = ""; prompt = "why"; max_tokens = pos 5; temperature = 1; metadata = [] }

abbrev texts : EmbedRequest
texts = record { model = ""; input = "a" ∷ "b" ∷ []; metadata = [] }

router_is_made : new_router providers routes ≡ ok router
unfolding program
router_is_made = refl

-- The completion is asked of both.
both_called :
    (complete router question []).1
    ≡ "http://local/api/generate" ∷ "https://api/v1/chat/completions" ∷ []
unfolding program
both_called = refl

new_router-Route_example :
    Route (λ p. p.complete question) router "main" [] (complete router question [])
unfolding program
new_router-Route_example = (new_router-Route providers routes router refl).0 question []

complete-needs_fallback_example :
    needs_fallback (OpenAi.complete http oai_codec config question []).0 ≡ true
unfolding program
complete-needs_fallback_example = complete-needs_fallback http oai_codec config question []

abbrev two_vectors : EmbedResponse ℕ
two_vectors = record {
  embeddings = (11 ∷ []) ∷ (10 ∷ []) ∷ [];
  model = "e";
  token_usage = record { prompt_tokens = pos 1; completion_tokens = pos 2; total_tokens = pos 3 };
  latency_ms = 1;
  provider = "main";
}

embed-in_order_example :
    (raw : String) × (out : OaiEmbeddingsResponse ℕ) × ((posted http oai_codec config texts []).0
      ≡ ok raw)
    × (oai_codec.decode_embeddings raw ≡ some out)
    × (two_vectors.embeddings ≡ map (λ i. i.embedding) out.data_items)
    × (length out.data_items ≡ 2)
    × All (InRange 2) out.data_items
unfolding program
embed-in_order_example = embed-in_order http oai_codec config texts [] two_vectors refl

abbrev sevens : EmbedResponse ℕ
sevens = record {
  embeddings = (7 ∷ []) ∷ (7 ∷ []) ∷ [];
  model = "e";
  token_usage = record { prompt_tokens = pos 0; completion_tokens = pos 0; total_tokens = pos 0 };
  latency_ms = 1;
  provider = "ollama";
}

embed-Calls_example :
    Calls http ollama_codec local "e"
      ("a" ∷ "b" ∷ [])
      sevens.embeddings
      []
      ("http://local/api/embeddings" ∷ "http://local/api/embeddings" ∷ [])
unfolding program
embed-Calls_example = embed-Calls http ollama_codec local texts [] sevens refl
