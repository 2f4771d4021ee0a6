-- ===== src/Intelligence/Summary/Service/Cached.antt =====
-- What the cache of summaries does for a request that is made again.
use synapse_platform.Prelude.{
  ℕ, ◌≡◌, refl, ap, ◌∙◌, sym, subst, ◌⊎◌, inl, inr, Bool, true, false, ◌&&◌, String, none, some,
  List, [], ◌∷◌, if◌then◌else◌, str_eq, str_eq_iff, arith, ◌==◌, ==_iff,
}
use synapse_platform.Api.Types.{Request, Report, DomainStat, SummaryLookup, SummaryEvidenceLink}
use synapse_platform.Intelligence.Provider.{
  CompletionRequest, CompletionResponse, Result, ok, failed,
}
use synapse_platform.Intelligence.Summary.{SummaryEvidenceEvent}
use synapse_platform.Intelligence.Summary.Prompt.{build_cache_key}
use synapse_platform.Intelligence.Summary.Service.{
  Answer, answer, fault, Interfaces, Service, Outcome, for_domain, evidence_links, save_links,
  after_save, save_report, empty_report, report_of, completed, with_evidence, after_miss, cache_key,
  looked_up, aggregated, summarize, completion_request,
}

-- The report has the key of the lookup; the temperature and the number of tokens are part of the hash.
abbrev pub has_key : {F : Type 0} → SummaryLookup F → Report → Bool
has_key l r =
    str_eq r.domain l.domain
    && (r.window_from == l.window_from)
    && str_eq r.provider l.provider
    && str_eq r.model l.model
    && str_eq r.prompt_version l.prompt_version
    && str_eq r.input_hash l.input_hash

module _ {F W : Type 0} where
  -- The reads of the two worlds agree.
  pub record SameReads (i : Interfaces F W) (v w : W) : Type 0 where
    pub same_stats : (since : ℕ) → i.aggregate_by_domain since w ≡ i.aggregate_by_domain since v
    pub same_latest : (l : SummaryLookup F) → i.latest_summary l w ≡ i.latest_summary l v

  -- What `Summarize` relies on: a saved report is what a lookup with its key then finds, if there was none
  -- before, and no other lookup or aggregate changes; asking the model, saving links and counting hits
  -- and misses change neither.
  pub record IsCache (i : Interfaces F W) : Type 0 where
    pub saved_stats :
        (r : Report) (w : W) (since : ℕ)
        → i.aggregate_by_domain since (i.save_summary r w).1 ≡ i.aggregate_by_domain since w
    pub saved_latest :
        (r : Report) (w : W) (id : ℕ) (l : SummaryLookup F)
        → (i.save_summary r w).0 ≡ answer id
        → i.latest_summary l w ≡ answer none
        → i.latest_summary l (i.save_summary r w).1 ≡ answer (if has_key l r then some r else none)
    pub after_links :
        (ls : List SummaryEvidenceLink) (w : W)
        → SameReads i w (i.save_summary_evidence_links ls w).1
    pub after_completion : (c : CompletionRequest F) (w : W) → SameReads i w (i.complete c w).1
    pub after_hit : (d : String) (w : W) → SameReads i w (i.cache_hit d w)
    pub after_miss : (d : String) (w : W) → SameReads i w (i.cache_miss d w)

Answer_cases :
    {A : Type 0} (a : Answer A) → ((x : A) × (a ≡ answer x)) ⊎ ((e : String) × (a ≡ fault e))
Answer_cases (answer x) = inl (x, refl)
Answer_cases (fault e) = inr (e, refl)

module _ {F W : Type 0} (s : Service F W) where
  -- The world `v` is that in which `r` has been saved in the world `w`.
  record Kept (r : Report) (w v : W) : Type 0 where
    kept_stats :
        (since : ℕ)
        → s.interfaces.aggregate_by_domain since v ≡ s.interfaces.aggregate_by_domain since w
    kept_latest :
        (l : SummaryLookup F)
        → s.interfaces.latest_summary l w ≡ answer none
        → s.interfaces.latest_summary l v ≡ answer (if has_key l r then some r else none)

  Kept-after : {r : Report} {w v u : W} → Kept r w v → SameReads s.interfaces v u → Kept r w u
  Kept-after k same = record {
    kept_stats = λ since. same.same_stats since ∙ k.kept_stats since;
    kept_latest = λ l h. same.same_latest l ∙ k.kept_latest l h;
  }

  Kept-before : {r : Report} {u w v : W} → SameReads s.interfaces u w → Kept r w v → Kept r u v
  Kept-before same k = record {
    kept_stats = λ since. k.kept_stats since ∙ same.same_stats since;
    kept_latest = λ l h. k.kept_latest l (same.same_latest l ∙ h);
  }

  -- If there is no error, the report is returned and kept.
  Keeps : Report → W → Outcome W → Type 0
  Keeps r w o = o.error ≡ none → (o.report ≡ some r) × Kept r w o.world

  links_keep :
      IsCache s.interfaces
      → (r : Report) (id : ℕ) (es : List SummaryEvidenceEvent) (w v : W) → Kept r w v
      → Keeps r w (save_links s r id es v)
  unfolding save_links Keeps
  links_keep cache r id [] w v k = λ e. (refl, k)
  links_keep cache r id (x ∷ xs) w v k =
      λ e. (refl, Kept-after k (cache.after_links (evidence_links id (x ∷ xs)) v))

  saved-Keeps :
      IsCache s.interfaces
      → (r : Report) (es : List SummaryEvidenceEvent) (w v : W) (a : Answer ℕ)
      → ((id : ℕ) → a ≡ answer id → Kept r w v)
      → Keeps r w (after_save s r es a v)
  unfolding after_save Keeps
  saved-Keeps cache r es w v (fault e) k = λ no_error. cc
  saved-Keeps cache r es w v (answer id) k = links_keep cache r id es w v (k id refl)

  save-Keeps :
      IsCache s.interfaces
      → (r : Report) (es : List SummaryEvidenceEvent) (w : W) → Keeps r w (save_report s r es w)
  unfolding save_report Keeps
  save-Keeps cache r es w =
      saved-Keeps cache r es w (s.interfaces.save_summary r w).1 (s.interfaces.save_summary r w).0
        (λ id a. record {
          kept_stats = λ since. cache.saved_stats r w since;
          kept_latest = λ l h. cache.saved_latest r w id l a h;
        })

  -- The report is the service's own if it names its provider and its model.
  abbrev pub is_own : Report → Bool
  is_own r = str_eq r.provider s.provider_name && str_eq r.model s.model

  -- The report that a request leads to after a miss, if there is no error.
  Made : SummaryLookup F → W → Outcome W → Type 0
  Made l w o =
      o.error ≡ none
      → (r : Report) × (o.report ≡ some r) × Kept r w o.world × (has_key l r ≡ is_own r)

  own_key :
      (l : SummaryLookup F) (r : Report)
      → r.domain ≡ l.domain
      → r.window_from ≡ l.window_from
      → r.prompt_version ≡ l.prompt_version
      → r.input_hash ≡ l.input_hash
      → has_key l r ≡ (str_eq r.provider l.provider && str_eq r.model l.model)
  own_key l r domain window version hash =
      let d : str_eq r.domain l.domain ≡ true = (str_eq_iff r.domain l.domain).1 domain in
      let v : str_eq r.prompt_version l.prompt_version ≡ true =
        (str_eq_iff r.prompt_version l.prompt_version).1 version in
      let h : str_eq r.input_hash l.input_hash ≡ true =
        (str_eq_iff r.input_hash l.input_hash).1 hash in
      let w : (r.window_from == l.window_from) ≡ true =
        (==_iff r.window_from l.window_from).1 window in
      ground arith

  completed_makes :
      IsCache s.interfaces
      → (req : Request) (stats : List DomainStat) (es : List SummaryEvidenceEvent)
        (c : Result CompletionResponse) (u w : W)
      → SameReads s.interfaces u w
      → Made (cache_key s req stats) u (completed s req (cache_key s req stats) es c w)
  unfolding completed Made report_of cache_key build_cache_key Keeps
  completed_makes cache req stats es (failed e) u w same = λ no_error. cc
  completed_makes cache req stats es (ok resp) u w same = λ no_error.
      let r = report_of s req (cache_key s req stats) resp w in
      let (report, k) = save-Keeps cache r es w no_error in
      (r, report, Kept-before same k, own_key (cache_key s req stats) r refl refl refl refl)

  evidence_makes :
      IsCache s.interfaces
      → (req : Request) (stats : List DomainStat) (a : Answer (List SummaryEvidenceEvent)) (w : W)
      → Made (cache_key s req stats) w (with_evidence s req (cache_key s req stats) stats a w)
  unfolding with_evidence Made
  evidence_makes cache req stats (fault e) w = λ no_error. cc
  evidence_makes cache req stats (answer es) w =
      let c = completion_request s req stats es in
      completed_makes cache req stats es (s.interfaces.complete c w).0 w
        (s.interfaces.complete c w).1 (cache.after_completion c w)

  miss_makes :
      IsCache s.interfaces
      → (req : Request) (key : SummaryLookup F) (stats : List DomainStat) (w : W)
      → key ≡ cache_key s req stats
      → Made key w (after_miss s req key stats w)
  unfolding after_miss Made empty_report cache_key build_cache_key Keeps
  miss_makes cache req key [] w e = λ no_error.
      let r = empty_report s req key w in
      let (report, k) = save-Keeps cache r [] w no_error in
      (
        r,
        report,
        k,
        subst (λ l. has_key l r ≡ is_own r) (sym e)
            (own_key (cache_key s req []) r refl refl refl (ap (λ l. l.input_hash) e)),
      )
  miss_makes cache req key (st ∷ sts) w e =
      subst (λ l. Made l w (after_miss s req l (st ∷ sts) w)) (sym e)
        (evidence_makes cache req (st ∷ sts) _ w)

  second_run :
      (req : Request) (stats : List DomainStat) (r : Report) (own : Bool) (v : W)
      → s.interfaces.aggregate_by_domain req.since v ≡ answer stats
      → s.interfaces.latest_summary (cache_key s req (for_domain req.domain stats)) v
        ≡ answer (if own then some r else none)
      → summarize s req v ≡ (
          if own
          then record { report = some r; error = none; world = s.interfaces.cache_hit req.domain v }
          else after_miss s req
              (cache_key s req (for_domain req.domain stats))
              (for_domain req.domain stats)
              (s.interfaces.cache_miss req.domain v))
  unfolding summarize aggregated looked_up
  second_run req stats r true v found hit = rw (summarize, aggregated, found, looked_up, hit) refl
  second_run req stats r false v found missed =
      rw (summarize, aggregated, found, looked_up, missed) refl

  -- If the cache has no summary for a request and the request is served without an error, then the same
  -- request, made once more, returns the same report from the cache and does nothing but count the
  -- hit; but if the report names another provider or model than the service does, as after a
  -- fallback, the cache has none again and the service starts over.
  pub summarize-again :
      IsCache s.interfaces
      → (req : Request) (stats : List DomainStat) (w : W)
      → s.interfaces.aggregate_by_domain req.since w ≡ answer stats
      → s.interfaces.latest_summary (cache_key s req (for_domain req.domain stats)) w ≡ answer none
      → (summarize s req w).error ≡ none
      → (r : Report) × ((summarize s req w).report ≡ some r)
        × (summarize s req (summarize s req w).world ≡ (
            if is_own r
            then record {
              report = some r;
              error = none;
              world = s.interfaces.cache_hit req.domain (summarize s req w).world;
            }
            else after_miss s req
                (cache_key s req (for_domain req.domain stats))
                (for_domain req.domain stats)
                (s.interfaces.cache_miss req.domain (summarize s req w).world)))
  unfolding summarize aggregated looked_up Made
  summarize-again cache req stats w found missed no_error =
      let mine = for_domain req.domain stats in
      let key = cache_key s req mine in
      let u = s.interfaces.cache_miss req.domain w in
      let first : summarize s req w ≡ after_miss s req key mine u =
        rw (summarize, aggregated, found, looked_up, missed) refl in
      let (r, report, kept, own) =
        miss_makes cache req key mine u refl (ap (λ o. o.error) (sym first) ∙ no_error) in
      let k = Kept-before (cache.after_miss req.domain w) kept in
      let v = (after_miss s req key mine u).world in
      let stats_again : s.interfaces.aggregate_by_domain req.since v ≡ answer stats =
        k.kept_stats req.since ∙ found in
      let latest_again = k.kept_latest key missed in
      (
        r,
        ap (λ o. o.report) first ∙ report,
        subst
            (λ z. summarize s req z ≡ (
              if is_own r
              then record {
                report = some r;
                error = none;
                world = s.interfaces.cache_hit req.domain z;
              }
              else after_miss s req key mine (s.interfaces.cache_miss req.domain z)))
            (ap (λ o. o.world) (sym first))
            (second_run req stats r (is_own r) v stats_again
              (latest_again ∙ ap (λ b. answer (if b then some r else none)) own)),
      )
