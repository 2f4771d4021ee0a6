-- ===== src/Intelligence/Provider/OpenAi/Vectors.antt =====
-- Which vectors `Embed` returns.
use synapse_platform.Prelude.{
  ℕ, ◌≡◌, refl, sym, subst, true, String, some, List, [], ◌∷◌, ltb, ◌<◌, ◌==◌, ==_iff, ℤ-cases, pos,
  length, map, All, Bool-cases, Option-cases, inl, inr, arith, ltb→lt,
}
use synapse_platform.Intelligence.Provider.{
  Result, Result-cases, ok, failed, EmbedRequest, EmbedResponse,
}
use synapse_platform.Intelligence.Provider.Http.{Http}
use synapse_platform.Intelligence.Provider.OpenAi.{
  OpenAiCompatibleConfig, OaiEmbedding, OaiEmbeddingsResponse, OaiCodec, embeddings, place,
  read_embeddings, do_post, embed, model_or,
}

-- An index that stands for one of the inputs.
abbrev pub InRange : {F : Type 0} → ℕ → OaiEmbedding F → Type 0
InRange n item = (i : ℕ) × (item.index ≡ pos i) × (i < n)

module _ {F W : Type 0} (h : Http W) (c : OaiCodec F) (cfg : OpenAiCompatibleConfig) where
  placed_first :
      (n : ℕ) (item : OaiEmbedding F) (rest : List (OaiEmbedding F)) {vs : List (List F)}
      → place h c cfg n (item ∷ rest) ≡ ok vs
      → (i : ℕ) × (item.index ≡ pos i)
        × (ltb i n ≡ true)
        × (us : List (List F)) × (place h c cfg n rest ≡ ok us)
        × (vs ≡ item.embedding ∷ us)
  unfolding place
  placed_first n item rest e = elim (ℤ-cases item.index) [
    | inr (i, at) ↦ absurd (ground arith)
    | inl (i, at) ↦ elim (Bool-cases (ltb i n)) [
      | inr above ↦ absurd (ground arith)
      | inl below ↦ elim (Result-cases (place h c cfg n rest)) [
        | inl (x, bad) ↦ absurd (ground arith)
        | inr (us, later) ↦ (i, at, below, us, later, ground arith)
      ]
    ]
  ]

  place_in_order :
      (n : ℕ) (items : List (OaiEmbedding F)) {vs : List (List F)}
      → place h c cfg n items ≡ ok vs
      → (vs ≡ map (λ i. i.embedding) items) × All (InRange n) items
  unfolding place
  place_in_order n [] e = (cc, tt)
  place_in_order n (item ∷ rest) {vs} e =
      let (i, at, below, us, later, whole) = placed_first n item rest e in
      let (order, in_range) = place_in_order n rest later in
      (rw (whole, order) refl, ((i, at, ltb→lt i n below), in_range))

  -- What a successful reading of the answer read.
  abbrev Read : ℕ → Result String → EmbedResponse F → Type 0
  Read inputs r resp =
      (raw : String) × (out : OaiEmbeddingsResponse F) × (r ≡ ok raw)
      × (c.decode_embeddings raw ≡ some out)
      × (length out.data_items ≡ inputs)
      × (place h c cfg (length out.data_items) out.data_items ≡ ok resp.embeddings)

  read_embeddings-Read :
      (model : String) (inputs latency : ℕ) (r : Result String) (resp : EmbedResponse F)
      → read_embeddings h c cfg model inputs latency r ≡ ok resp
      → Read inputs r resp
  unfolding read_embeddings
  read_embeddings-Read model inputs latency (failed x) resp e = cc
  read_embeddings-Read model inputs latency (ok raw) resp e =
      elim (Option-cases (c.decode_embeddings raw)) [
        | inl bad ↦ absurd (ground arith)
        | inr (out, decoded) ↦ elim (Bool-cases (length out.data_items == inputs)) [
          | inr other ↦ absurd (ground arith)
          | inl same ↦ elim (Result-cases (place h c cfg (length out.data_items) out.data_items)) [
            | inl (x, bad) ↦ absurd (ground arith)
            | inr (vs, placed) ↦
                let vectors : vs ≡ resp.embeddings = ground arith in
                (raw, out, refl, decoded, (==_iff _ _).0 same, rw (sym vectors) placed)
          ]
        ]
      ]

  abbrev pub posted : EmbedRequest → W → Result String × W
  posted req w =
      do_post h c cfg "/v1/embeddings"
        (embeddings
          (record { model = model_or h c cfg req.model cfg.embedding_model; input = req.input }))
        w

  embed-read :
      (req : EmbedRequest) (w : W) (resp : EmbedResponse F)
      → (embed h c cfg req w).0 ≡ ok resp
      → read_embeddings h c cfg
          (model_or h c cfg req.model cfg.embedding_model)
          (length req.input)
          (h.since w (posted req w).1)
          (posted req w).0
        ≡ ok resp
  unfolding embed
  embed-read req w resp e = ground arith

  -- When `Embed` succeeds, it returns one vector for each input: the vectors of the answer in the
  -- order in which they stand in the answer. The indices are in range but decide nothing.
  pub embed-in_order :
      (req : EmbedRequest) (w : W) (resp : EmbedResponse F)
      → (embed h c cfg req w).0 ≡ ok resp
      → (raw : String) × (out : OaiEmbeddingsResponse F) × ((posted req w).0 ≡ ok raw)
        × (c.decode_embeddings raw ≡ some out)
        × (resp.embeddings ≡ map (λ i. i.embedding) out.data_items)
        × (length out.data_items ≡ length req.input)
        × All (InRange (length req.input)) out.data_items
  embed-in_order req w resp e =
      let (raw, out, answered, decoded, count, placed) =
        read_embeddings-Read _ _ _ _ resp (embed-read req w resp e) in
      let (order, in_range) = place_in_order (length out.data_items) out.data_items placed in
      (
        raw,
        out,
        answered,
        decoded,
        order,
        count,
        subst (λ n. All (InRange n) out.data_items) count in_range,
      )
