-- ===== src/Intelligence/Provider/Ollama/Batch.antt =====
-- `Embed` of the Ollama client: one request for each input, in order.
use synapse_platform.Prelude.{◌≡◌, subst, String, List, [], ◌∷◌, inl, inr, arith, ℕ}
use synapse_platform.Intelligence.Provider.{
  Result, Result-cases, ok, failed, EmbedRequest, EmbedResponse,
}
use synapse_platform.Intelligence.Provider.Http.{Http}
use synapse_platform.Intelligence.Provider.Ollama.{
  Client, OllamaCodec, embed_text, embed_all, finish_embed, embed, model_or,
}

module _ {F W : Type 0} (h : Http W) (k : OllamaCodec F) (c : Client F) where
  -- The calls for these texts, one after the other, from one state to another: each gave the vector
  -- that stands at its text's place.
  pub data Calls (model : String) : List String → List (List F) → W → W → Type 0 where
    done : {w : W} → Calls model [] [] w w
    then_call :
        {text : String} {texts : List String} {v : List F} {vs : List (List F)} {w w' : W}
        → (embed_text h k c model text w).0 ≡ ok v
        → Calls model texts vs (embed_text h k c model text w).1 w'
        → Calls model (text ∷ texts) (v ∷ vs) w w'

  all_Calls :
      (model : String) (texts : List String) (w : W) {vs : List (List F)}
      → (embed_all h k c model texts w).0 ≡ ok vs
      → Calls model texts vs w (embed_all h k c model texts w).1
  unfolding embed_all
  all_Calls model [] w {vs} e =
      let empty : [] ≡ vs = cc in subst (λ u. Calls model [] u w w) empty done
  all_Calls model (text ∷ texts) w {vs} e =
      let first = embed_text h k c model text w in
      let later = embed_all h k c model texts first.1 in
      elim (Result-cases first.0) [
        | inl (x, bad) ↦ absurd (ground arith)
        | inr (v, good) ↦ elim (Result-cases later.0) [
          | inl (x, bad) ↦ absurd (ground arith)
          | inr (us, rest) ↦
              let whole : v ∷ us ≡ vs = ground arith in
              let state : later.1 ≡ (embed_all h k c model (text ∷ texts) w).1 = ground arith in
              subst (λ u. Calls model (text ∷ texts) u w (embed_all h k c model (text ∷ texts) w).1)
                whole
                (subst (Calls model (text ∷ texts) (v ∷ us) w) state
                  (then_call good (all_Calls model texts first.1 rest)))
        ]
      ]

  finished :
      (model : String) (latency : ℕ) (r : Result (List (List F))) {resp : EmbedResponse F}
      → finish_embed h k c model latency r ≡ ok resp
      → r ≡ ok resp.embeddings
  unfolding finish_embed
  finished model latency (failed x) e = cc
  finished model latency (ok vs) e = cc

  -- When `Embed` succeeds, it made one call for each input, in the order of the inputs, and vector
  -- `i` of the result is the answer to the call for input `i`.
  pub embed-Calls :
      (req : EmbedRequest) (w : W) (resp : EmbedResponse F)
      → (embed h k c req w).0 ≡ ok resp
      → Calls
          (model_or h k c req.model c.embedding_model)
          req.input
          resp.embeddings
          w
          (embed h k c req w).1
  unfolding embed
  embed-Calls req w resp e =
      let model = model_or h k c req.model c.embedding_model in
      let all = embed_all h k c model req.input w in
      let (got, same) : (finish_embed h k c model (h.since w all.1) all.0 ≡ ok resp)
          × (all.1 ≡ (embed h k c req w).1) =
        ground arith in
      subst (Calls model req.input resp.embeddings w) same
        (all_Calls model req.input w (finished model (h.since w all.1) all.0 got))
