-- ===== src/Intelligence/Provider/OpenAi/Status.antt =====
-- Which failures of the OpenAI-compatible client let the router try a fallback.
use Prim.Native.String.{◌++◌ as join}
use synapse_platform.Prelude.{
  ℕ, ◌≡◌, refl, Bool, true, false, not, ◌&&◌, ◌||◌, String, Option, none, some, if◌then◌else◌, List,
  [], ◌∷◌, ◌==◌, Option-cases, inl, inr, arith,
}
use synapse_platform.Intelligence.Provider.{is_unavailable, Result, ok, failed, CompletionRequest}
use synapse_platform.Intelligence.Provider.Http.{Http, Response}
use synapse_platform.Intelligence.Provider.OpenAi.{
  OpenAiCompatibleConfig, OaiCodec, OaiBody, chat, is_empty, read_response, send_request,
  with_token, do_post, chat_request, read_chat, model_or, complete,
}

-- What `fallbackFor` asks of a result.
abbrev pub needs_fallback : {A : Type 0} → Result A → Bool
needs_fallback (ok a) = false
needs_fallback (failed e) = is_unavailable e

-- Whether a status is in a list.
abbrev pub is_one_of : ℕ → List ℕ → Bool
is_one_of c [] = false
is_one_of c (d ∷ ds) = d == c || is_one_of c ds

-- The statuses that stand for a lost request.
abbrev pub lost_statuses : List ℕ
lost_statuses = 408 ∷ 502 ∷ 503 ∷ 504 ∷ []

-- No answer, or one with such a status.
abbrev pub is_lost : Option Response → Bool
is_lost none = true
is_lost (some r) = is_one_of r.status_code lost_statuses

abbrev is_some : {A : Type 0} → Option A → Bool
is_some none = false
is_some (some a) = true

read_response_lost :
    (r : Response) → needs_fallback (read_response r) ≡ is_one_of r.status_code lost_statuses
unfolding read_response is_unavailable
read_response_lost r = ground arith

module _ {F W : Type 0} (h : Http W) (c : OaiCodec F) (cfg : OpenAiCompatibleConfig) where
  send_lost :
      (path text : String) (token : Option String) (w : W)
      → needs_fallback (send_request h c cfg path text token w).0
        ≡ is_lost (h.send (join cfg.base_url path) token text w).0
  unfolding send_request is_unavailable
  send_lost path text token w =
      elim (Option-cases (h.send (join cfg.base_url path) token text w).0) [
        | inl e ↦ rw (send_request, e) refl
        | inr (r, e) ↦ rw (send_request, e) (read_response_lost r)
      ]

  -- The token of a call: none is wanted, or the variable holds one.
  abbrev pub token : W → Option String
  token w = if is_empty cfg.api_key_env then none else some (h.getenv cfg.api_key_env w)

  abbrev pub has_token : W → Bool
  has_token w = is_empty cfg.api_key_env || not (is_empty (h.getenv cfg.api_key_env w))

  token_lost :
      (path text : String) (w : W)
      → needs_fallback (with_token h c cfg path text w).0
        ≡ (has_token w && is_lost (h.send (join cfg.base_url path) (token w) text w).0)
  unfolding with_token is_unavailable
  token_lost path text w =
      ground (
        arith,
        send_lost path text none w,
        send_lost path text (some (h.getenv cfg.api_key_env w)) w,
      )

  -- Whether posting this body leaves an error that a fallback may mend.
  abbrev pub post_is_lost : String → OaiBody F → W → Bool
  post_is_lost path body w = elim (c.marshal body) [
    | none ↦ false
    | some text ↦
        not (h.makes_request (join cfg.base_url path))
        || (has_token w && is_lost (h.send (join cfg.base_url path) (token w) text w).0)
  ]

  post_lost :
      (path : String) (body : OaiBody F) (w : W)
      → needs_fallback (do_post h c cfg path body w).0 ≡ post_is_lost path body w
  unfolding do_post is_unavailable
  post_lost path body w = elim (Option-cases (c.marshal body)) [
    | inl e ↦ rw (do_post, e, post_is_lost) refl
    | inr (text, e) ↦ ground (arith, token_lost path text w)
  ]

  read_chat_lost :
      (model : String) (latency : ℕ) (r : Result String)
      → needs_fallback (read_chat h c cfg model latency r) ≡ needs_fallback r
  unfolding read_chat is_unavailable
  read_chat_lost model latency (failed e) = refl
  read_chat_lost model latency (ok raw) = ground arith

  -- `Complete` fails with `ErrUnavailableProvider` exactly if the request has a prompt and a model,
  -- its body can be encoded, and then no request can be made for the URL, or the token is there and
  -- the one request that is sent gets no answer or one of the statuses 408, 502, 503 and 504. So an
  -- answer of 500 does not lead to a fallback, and one of 408 does.
  pub complete-needs_fallback :
      (req : CompletionRequest F) (w : W)
      → let model = model_or h c cfg req.model cfg.completion_model in
        needs_fallback (complete h c cfg req w).0 ≡ (
          not (is_empty req.prompt)
          && (not (is_empty model)
              && post_is_lost "/v1/chat/completions" (chat (chat_request h c cfg req model)) w))
  unfolding complete is_unavailable
  complete-needs_fallback req w =
      let model = model_or h c cfg req.model cfg.completion_model in
      let body = chat (chat_request h c cfg req model) in
      let path : String = "/v1/chat/completions" in
      let (r, w') = do_post h c cfg path body w in
      ground (arith, post_lost path body w, read_chat_lost model (h.since w w') r)
