-- ===== src/Intelligence/Provider/Router/Routes.antt =====
-- Where a request goes in a router that `NewRouter` accepted.
use synapse_platform.Prelude.{
  ◌≡◌, ◌≢◌, refl, sym, ◌∙◌, ap, ◌⊎◌, inl, inr, true, false, String, Option, none, some,
  if◌then◌else◌, str_eq, str_eq_iff, Bool-cases, Option-cases, arith, subst,
}
use synapse_platform.Intelligence.Provider.{
  ProviderError, unsupported_operation, wrapped, is_unavailable, Result, ok, failed, StringMap, get,
  get_string, CompletionRequest, EmbedRequest, ModelProvider,
}
use synapse_platform.Intelligence.Provider.Router.{
  RouterConfig, is_empty, Providers, Router, Call, Routed, registered, new_router, select_provider,
  fallback_for, try_fallback, route, complete, embed,
}
use synapse_platform.Intelligence.Provider.Router.Accepted.{IsRoutable, new_router-IsRoutable}

differ_self : (a b : String) → a ≡ b → str_eq a b ≡ false → ⊥
differ_self a b same differs = let equal = (str_eq_iff a b).1 same in cc

-- The provider that the request names, or else the default.
abbrev pub requested_name : StringMap String → String → String
requested_name meta default_name =
    let requested = get_string "provider" meta in
    if is_empty requested then default_name else requested

abbrev no_provider : ProviderError
no_provider = wrapped "no provider requested and no default configured" unsupported_operation

abbrev unknown_provider : ProviderError
unknown_provider = wrapped "provider is not registered" unsupported_operation

module _ {F W : Type 0} where
  -- Where a call went: to no provider, to the provider of that name, or to that one and then to its
  -- fallback.
  pub data Route {A : Type 0} (op : Call F W A) (r : Router F W) (name : String) (w : W)
      (res : Routed W A) : Type 0 where
    refused :
        (e : ProviderError)
        → (is_empty name ≡ true) ⊎ (get name r.providers ≡ none)
        → is_unavailable e ≡ false
        → res ≡ (some (failed e), w)
        → Route op r name w res
    answered :
        (p : ModelProvider F W) (x : Result A) (w' : W)
        → p.name ≡ name
        → get name r.providers ≡ some (some p)
        → op p w ≡ (x, w')
        → ((e : ProviderError)
            → x ≡ failed e
            → (is_unavailable e ≡ false) ⊎ (get name r.fallbacks ≡ none))
        → res ≡ (some x, w')
        → Route op r name w res
    rerouted :
        (p q : ModelProvider F W) (e : ProviderError) (w' : W)
        → p.name ≡ name
        → get name r.providers ≡ some (some p)
        → op p w ≡ (failed e, w')
        → is_unavailable e ≡ true
        → get name r.fallbacks ≡ some q.name
        → get q.name r.providers ≡ some (some q)
        → q.name ≢ name
        → res ≡ (some (op q w').0, (op q w').1)
        → Route op r name w res

  registered_entry :
      (name : String) (ps : Providers F W)
      → registered name ps ≡ true
      → (o : Option (ModelProvider F W)) × (get name ps ≡ some o)
  registered_entry name ps h = elim (Option-cases (get name ps)) [
    | inl e ↦ absurd (ground arith)
    | inr found ↦ found
  ]

  answer_Route :
      {A : Type 0} (op : Call F W A) (r : Router F W) (name : String) (w : W)
      (p : ModelProvider F W)
      → IsRoutable r
      → p.name ≡ name
      → get name r.providers ≡ some (some p)
      → (x : Result A) (w' : W) → op p w ≡ (x, w')
      → Route op r name w (try_fallback op r p.name (x, w'))
  unfolding try_fallback fallback_for
  answer_Route op r name w p rt named found (ok a) w' called =
      answered p (ok a) w' named found called (λ e h. cc) refl
  answer_Route op r name w p rt named found (failed e) w' called =
      elim (Bool-cases (is_unavailable e)) [
        | inr k ↦
            answered p (failed e) w' named found called (λ e' h. inl cc)
              (rw (k, try_fallback, fallback_for) refl)
        | inl k ↦ elim (Option-cases (get p.name r.fallbacks)) [
          | inl none_there ↦
              answered p (failed e) w' named found called (λ e' h. inr (rw (sym named) none_there))
                (rw (try_fallback, fallback_for, k, none_there) refl)
          | inr (fb, there) ↦
              let (differs, there_too) = rt.fallback p.name fb there in
              let (o, entry) = registered_entry fb r.providers there_too in
              let n = rt.named fb o entry in
              let q = n.provider in
              let chain : get name r.fallbacks ≡ some q.name = cc in
              let target : get q.name r.providers ≡ some (some q) = cc in
              let other_name : q.name ≢ name =
                λ same. differ_self p.name fb (named ∙ sym same ∙ n.same_name) differs in
              rerouted p q e w' named found called k chain target other_name
                (rw (try_fallback, fallback_for, k, there, entry, n.present) refl)
        ]
      ]

  route-Route :
      {A : Type 0} (op : Call F W A) (r : Router F W) (meta : StringMap String)
      (default_name : String) (w : W)
      → IsRoutable r
      → Route op r (requested_name meta default_name) w (route op r meta default_name w)
  unfolding route select_provider is_unavailable
  route-Route op r meta default_name w rt =
      let name = requested_name meta default_name in
      elim (Bool-cases (is_empty name)) [
        | inl e ↦ refused no_provider (inl e) refl (rw (route, select_provider, e) refl)
        | inr e ↦ elim (Option-cases (get name r.providers)) [
          | inl missing ↦
              refused unknown_provider (inr missing) refl
                (rw (route, select_provider, e, missing) refl)
          | inr (o, found) ↦
              let n = rt.named name o found in
              let p = n.provider in
              let found_p : get name r.providers ≡ some (some p) =
                found ∙ ap (λ u. some u) n.present in
              let routed : try_fallback op r p.name (op p w) ≡ route op r meta default_name w =
                rw (route, select_provider, e, found, n.present) refl in
              subst (Route op r name w) routed
                (answer_Route op r name w p rt n.same_name found_p (op p w).0 (op p w).1 refl)
        ]
      ]

  -- In a router that `NewRouter` returned, a request goes to the provider that it names, or else to
  -- the default, and the caller gets that provider's answer; only if it is `ErrUnavailableProvider`
  -- and a fallback is configured for that provider, the request goes once more, to that other one,
  -- and the caller gets its answer. A request that leads to no registered provider calls none and is
  -- refused with an error that is not `ErrUnavailableProvider` and not for a fallback. No nil provider
  -- is ever called.
  pub new_router-Route :
      (ps : Providers F W) (cfg : RouterConfig) (r : Router F W)
      → new_router ps cfg ≡ ok r
      → ((req : CompletionRequest F) (w : W)
          → Route
              (λ p. p.complete req)
              r
              (requested_name req.metadata r.default_completion)
              w
              (complete r req w))
        × ((req : EmbedRequest) (w : W)
            → Route
                (λ p. p.embed req)
                r
                (requested_name req.metadata r.default_embedding)
                w
                (embed r req w))
  unfolding complete embed
  new_router-Route ps cfg r h =
      let rt = new_router-IsRoutable ps cfg h in
      (
        λ req w. route-Route (λ p. p.complete req) r req.metadata r.default_completion w rt,
        λ req w. route-Route (λ p. p.embed req) r req.metadata r.default_embedding w rt,
      )
