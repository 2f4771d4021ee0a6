-- ===== src/Intelligence/Summary/Service/Order.antt =====
-- The hash of a cache key does not depend on the order of the rows that the database returned.
use Prim.Native.Char.{code}
use text.Mathlib.TextEquality.{Char-path}
use Prim.Native.String.{◌++◌}
use synapse_platform.Prelude.{
  ◌≡◌, refl, ap, ◌∙◌, sym, subst, inl, inr, Bool, true, false, ◌&&◌, String, List, [], ◌∷◌, str_eq,
  str_eq_iff, Bool-cases, All, All-mono, ◌⊎◌, arith, ℤ,
}
use mathlib.Core.List.{Permᴰ}
use synapse_platform.Prelude.Text.{codes, bytes_eq, bytes_eq_iff}
use synapse_platform.Prelude.Sorting.{
  bytes_less, bytes_less_trans, bytes_less_apart, bytes_less_irrefl, IsTransitive, Apart, AllApart,
  sort_stable_permuted,
}
use synapse_platform.Api.Types.{DomainStat}
use synapse_platform.Intelligence.Summary.Prompt.{
  Formats, stat_before, hash_lines, compute_input_hash,
}

codes_same : (s t : String) → codes s ≡ codes t → s ≡ t
codes_same String.[] String.[] h = refl
codes_same String.[] (String.◌∷◌ d t) h = cc
codes_same (String.◌∷◌ c s) String.[] h = cc
codes_same (String.◌∷◌ c s) (String.◌∷◌ d t) h =
    let head : code c ≡ code d = cc in
    let tail : codes s ≡ codes t = cc in
    ap (λ x. String.◌∷◌ x s) (Char-path c d head) ∙ ap (λ u. String.◌∷◌ d u) (codes_same s t tail)

codes_apart : (s t : String) → str_eq s t ≡ false → bytes_eq (codes s) (codes t) ≡ false
codes_apart s t h = elim (Bool-cases (bytes_eq (codes s) (codes t))) [
  | inr f ↦ f
  | inl e ↦
      let same : str_eq s t ≡ true =
        (str_eq_iff s t).1 (codes_same s t ((bytes_eq_iff (codes s) (codes t)).0 e)) in
      absurd (ground arith)
]

-- The domain and the type of event, by which the rows are grouped.
abbrev pub same_group : DomainStat → DomainStat → Bool
same_group a b = str_eq a.domain b.domain && str_eq a.event_type b.event_type

-- No two rows are of the same group.
abbrev pub IsGrouped : List DomainStat → Type 0
IsGrouped [] = Unit
IsGrouped (s ∷ ss) = All (λ t. same_group s t ≡ false) ss × IsGrouped ss

stat-Apart : (a b : DomainStat) → same_group a b ≡ false → Apart stat_before a b
unfolding stat_before
stat-Apart a b h = elim (Bool-cases (str_eq a.domain b.domain)) [
  | inl e ↦
      let d : a.domain ≡ b.domain = (str_eq_iff a.domain b.domain).0 e in
      let back : str_eq b.domain a.domain ≡ true = (str_eq_iff b.domain a.domain).1 (sym d) in
      let types : str_eq a.event_type b.event_type ≡ false = ground arith in
      rw (stat_before, e, back)
        (bytes_less_apart (codes a.event_type) (codes b.event_type)
          (codes_apart a.event_type b.event_type types))
  | inr e ↦
      let back : str_eq b.domain a.domain ≡ false = elim (Bool-cases (str_eq b.domain a.domain)) [
        | inr f ↦ f
        | inl t ↦
            let same : str_eq a.domain b.domain ≡ true =
              (str_eq_iff a.domain b.domain).1 (sym ((str_eq_iff b.domain a.domain).0 t)) in
            absurd (ground arith)
      ] in
      rw (stat_before, e, back)
        (bytes_less_apart (codes a.domain) (codes b.domain) (codes_apart a.domain b.domain e))
]

grouped_apart : (ss : List DomainStat) → IsGrouped ss → AllApart stat_before ss
grouped_apart [] h = tt
grouped_apart (s ∷ ss) h = (All-mono ss (λ t d. stat-Apart s t d) h.0, grouped_apart ss h.1)

-- What "comes before" says.
cases_before :
    (a b : DomainStat)
    → stat_before a b ≡ true
    → ((a.domain ≡ b.domain) × (bytes_less (codes a.event_type) (codes b.event_type) ≡ true))
      ⊎ (bytes_less (codes a.domain) (codes b.domain) ≡ true)
unfolding stat_before
cases_before a b h = elim (Bool-cases (str_eq a.domain b.domain)) [
  | inl e ↦ inl ((str_eq_iff a.domain b.domain).0 e, ground arith)
  | inr e ↦ inr (ground arith)
]

by_domain :
    (a b : DomainStat)
    → bytes_less (codes a.domain) (codes b.domain) ≡ true
    → stat_before a b ≡ true
unfolding stat_before
by_domain a b h = elim (Bool-cases (str_eq a.domain b.domain)) [
  | inl e ↦
      let d : a.domain ≡ b.domain = (str_eq_iff a.domain b.domain).0 e in
      let no : bytes_less (codes b.domain) (codes b.domain) ≡ true =
        subst (λ x. bytes_less (codes x) (codes b.domain) ≡ true) d h in
      let never = bytes_less_irrefl (codes b.domain) in absurd (ground arith)
  | inr e ↦ rw (stat_before, e) h
]

by_type :
    (a b : DomainStat)
    → a.domain ≡ b.domain
    → bytes_less (codes a.event_type) (codes b.event_type) ≡ true
    → stat_before a b ≡ true
unfolding stat_before
by_type a b d h =
    let e : str_eq a.domain b.domain ≡ true = (str_eq_iff a.domain b.domain).1 d in
    rw (stat_before, e) h

stat_before-IsTransitive : IsTransitive stat_before
stat_before-IsTransitive a b c h k = elim (cases_before a b h) [
  | inl (d, t) ↦ elim (cases_before b c k) [
    | inl (e, u) ↦
        by_type a c (d ∙ e)
          (bytes_less_trans (codes a.event_type) (codes b.event_type) (codes c.event_type) t u)
    | inr u ↦ by_domain a c (subst (λ x. bytes_less (codes x) (codes c.domain) ≡ true) (sym d) u)
  ]
  | inr t ↦ elim (cases_before b c k) [
    | inl (e, u) ↦ by_domain a c (subst (λ x. bytes_less (codes a.domain) (codes x) ≡ true) e t)
    | inr u ↦
        by_domain a c (bytes_less_trans (codes a.domain) (codes b.domain) (codes c.domain) t u)
  ]
]

-- The input hash is the same for any order of rows of which no two have the same domain and event type.
pub compute_input_hash-Perm :
    {F : Type 0} (f : Formats F) (temperature : F) (max_tokens : ℤ) {xs ys : List DomainStat}
    → Permᴰ xs ys
    → IsGrouped xs
    → compute_input_hash f xs temperature max_tokens
      ≡ compute_input_hash f ys temperature max_tokens
unfolding compute_input_hash
compute_input_hash-Perm f temperature max_tokens {xs = xs} perm grouped =
    ap
      (λ ss.
        f.sha256_hex
          (f.format_float temperature ++ "|" ++ f.format_int max_tokens ++ "\n" ++ hash_lines f ss))
      (sort_stable_permuted stat_before stat_before-IsTransitive perm (grouped_apart xs grouped))
