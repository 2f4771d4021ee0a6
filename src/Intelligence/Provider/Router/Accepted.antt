-- ===== src/Intelligence/Provider/Router/Accepted.antt =====
-- What a router is like that `NewRouter` accepted.
use synapse_platform.Prelude.{
  ◌≡◌, refl, sym, ◌∙◌, ◌⊎◌, inl, inr, true, false, String, Option, none, some, List, [], ◌∷◌,
  str_eq, str_eq_iff, Bool-cases, arith, subst,
}
use synapse_platform.Intelligence.Provider.{ok, StringMap, get, ModelProvider}
use synapse_platform.Intelligence.Provider.Router.{
  RouterConfig, is_empty, Providers, Router, check_provider, check_providers, registered,
  check_default, check_fallbacks, check_config, make_router, new_router,
}

module _ {F W : Type 0} where
  pub record IsNamed (name : String) (o : Option (ModelProvider F W)) : Type 0 where
    pub provider : ModelProvider F W
    pub present : o ≡ some provider
    pub same_name : provider.name ≡ name

  -- What `NewRouter` makes sure of.
  pub record IsRoutable (r : Router F W) : Type 0 where
    pub named :
        (name : String) (o : Option (ModelProvider F W))
        → get name r.providers ≡ some o
        → IsNamed name o
    pub completion_default :
        (is_empty r.default_completion ≡ true)
        ⊎ (registered r.default_completion r.providers ≡ true)
    pub embedding_default :
        (is_empty r.default_embedding ≡ true) ⊎ (registered r.default_embedding r.providers ≡ true)
    pub fallback :
        (primary fb : String)
        → get primary r.fallbacks ≡ some fb
        → (str_eq primary fb ≡ false) × (registered fb r.providers ≡ true)

  check_provider-IsNamed :
      (name : String) (k : String) (q : Option (ModelProvider F W)) (seen : List String)
      → check_provider k q seen ≡ none
      → str_eq name k ≡ true
      → IsNamed name q
  unfolding check_provider
  check_provider-IsNamed name k none seen h same = cc
  check_provider-IsNamed name k (some p) seen h same = elim (Bool-cases (str_eq p.name k)) [
    | inl e ↦ record {
      provider = p;
      present = refl;
      same_name = (str_eq_iff p.name k).0 e ∙ sym ((str_eq_iff name k).0 same);
    }
    | inr e ↦ absurd (ground arith)
  ]

  check_providers-IsNamed :
      (ps : Providers F W) (seen : List String)
      → check_providers ps seen ≡ none
      → (name : String) (o : Option (ModelProvider F W)) → get name ps ≡ some o
      → IsNamed name o
  unfolding check_providers get
  check_providers-IsNamed [] seen h name o found = cc
  check_providers-IsNamed ((k, q) ∷ rest) seen h name o found =
      let (here, later) : (check_provider k q seen ≡ none)
          × (check_providers rest (k ∷ seen) ≡ none) =
        ground arith in
      elim (Bool-cases (str_eq name k)) [
        | inl e ↦
            let same : q ≡ o = ground arith in
            subst (IsNamed name) same (check_provider-IsNamed name k q seen here e)
        | inr e ↦ check_providers-IsNamed rest (k ∷ seen) later name o (ground arith)
      ]

  fallbacks_registered :
      (fs : StringMap String) (ps : Providers F W)
      → check_fallbacks fs ps ≡ none
      → (primary fb : String) → get primary fs ≡ some fb
      → (str_eq primary fb ≡ false) × (registered fb ps ≡ true)
  unfolding check_fallbacks get
  fallbacks_registered [] ps h primary fb found = cc
  fallbacks_registered ((k, f) ∷ rest) ps h primary fb found =
      let (differs, here, later) : (str_eq k f ≡ false)
          × (registered f ps ≡ true)
          × (check_fallbacks rest ps ≡ none) =
        ground arith in
      elim (Bool-cases (str_eq primary k)) [
        | inl e ↦
            let same_key : primary ≡ k = (str_eq_iff primary k).0 e in
            let same_value : f ≡ fb = ground arith in
            (rw (same_key, sym same_value) differs, rw (sym same_value) here)
        | inr e ↦ fallbacks_registered rest ps later primary fb (ground arith)
      ]

  default_registered :
      (kind name : String) (ps : Providers F W)
      → check_default kind name ps ≡ none
      → (is_empty name ≡ true) ⊎ (registered name ps ≡ true)
  unfolding check_default
  default_registered kind name ps h = ground arith

  -- A router that `NewRouter` returns has every name stand for the provider of that name; its
  -- defaults, where they are set, and all its fallbacks are registered, and no provider falls back
  -- to itself.
  pub new_router-IsRoutable :
      (ps : Providers F W) (cfg : RouterConfig) {r : Router F W}
      → new_router ps cfg ≡ ok r
      → IsRoutable r
  unfolding new_router check_config check_default
  new_router-IsRoutable [] cfg h = cc
  new_router-IsRoutable (p ∷ ps) cfg {r} h =
      let (a, b, c, d) : (check_providers (p ∷ ps) [] ≡ none)
          × (check_default "default completion provider is not registered"
                cfg.default_completion_provider (p ∷ ps)
              ≡ none)
          × (check_default "default embedding provider is not registered"
                cfg.default_embedding_provider (p ∷ ps)
              ≡ none)
          × (check_fallbacks cfg.fallbacks (p ∷ ps) ≡ none) =
        ground arith in
      let made : make_router (p ∷ ps) cfg ≡ r = ground arith in
      subst IsRoutable made (record {
        named = check_providers-IsNamed (p ∷ ps) [] a;
        completion_default = default_registered _ cfg.default_completion_provider (p ∷ ps) b;
        embedding_default = default_registered _ cfg.default_embedding_provider (p ∷ ps) c;
        fallback = fallbacks_registered cfg.fallbacks (p ∷ ps) d;
      })
