-- ===== src/Health/Verdicts.antt =====
-- The answer of the readiness check and the verdicts of its probes.
use synapse_platform.Prelude.{
  ◌≡◌, refl, ap, ◌∙◌, inl, inr, Bool, true, false, ◌&&◌, String, Option, none, some, Option-cases,
  Bool-cases, List, [], ◌∷◌, if◌then◌else◌, str_eq, str_eq_iff, str_eq_self, arith,
}
use synapse_platform.Health.{
  Probe, set_check, verdict, Round, record_check, check_probes, check_all,
}

abbrev pub check_of : String → List (String × String) → Option String
check_of k [] = none
check_of k ((j, v) ∷ m) = if str_eq j k then some v else check_of k m

abbrev pub or_else {ℓ} : {A : Type ℓ} → Option A → Option A → Option A
or_else none b = b
or_else (some a) b = some a

module _ {W : Type 0} where
  -- The probes' names and errors, in the order in which they are asked.
  abbrev pub verdicts : List (Probe W) → W → List (String × Option String)
  verdicts [] w = []
  verdicts (p ∷ ps) w = let (e, left) = p.check w in (p.name, e) ∷ verdicts ps left

abbrev pub all_pass : List (String × Option String) → Bool
all_pass [] = true
all_pass ((k, none) ∷ vs) = all_pass vs
all_pass ((k, some e) ∷ vs) = false

-- The verdict of the last probe of a name.
abbrev pub last_verdict : String → List (String × Option String) → Option String
last_verdict k [] = none
last_verdict k ((j, e) ∷ vs) =
    let later = last_verdict k vs in or_else later (if str_eq j k then some (verdict e) else none)

check_of-set_check :
    (k j v : String) (m : List (String × String))
    → check_of j (set_check k v m) ≡ (if str_eq k j then some v else check_of j m)
unfolding set_check
check_of-set_check k j v [] = refl
check_of-set_check k j v ((i, u) ∷ m) = elim (Bool-cases (str_eq i k)) [
  | inl same ↦
      let i_is_k : i ≡ k = (str_eq_iff i k).0 same in
      elim (Bool-cases (str_eq k j)) [
        | inl t ↦ rw (set_check, same, t) refl
        | inr f ↦ let g : str_eq i j ≡ false = cc in rw (set_check, same, f, g) refl
      ]
  | inr other ↦ elim (Bool-cases (str_eq i j)) [
    | inl here ↦
        let i_is_j : i ≡ j = (str_eq_iff i j).0 here in
        elim (Bool-cases (str_eq k j)) [
          | inl t ↦
              let k_is_j : k ≡ j = (str_eq_iff k j).0 t in
              let again : str_eq i k ≡ true = rw (i_is_j, k_is_j) (str_eq_self j) in
              absurd (ground arith)
          | inr f ↦ rw (set_check, other, here, f) refl
        ]
    | inr there ↦ rw (set_check, other, there) (check_of-set_check k j v m)
  ]
]

or_else_if :
    (b : Bool) (t : String) (o : Option String)
    → (if b then some t else o) ≡ or_else (if b then some t else none) o
or_else_if true t o = refl
or_else_if false t o = refl

or_else-none : (o : Option String) → or_else o none ≡ o
or_else-none none = refl
or_else-none (some a) = refl

module _ {W : Type 0} where
  -- What one verdict does to the flag and to the map, for the verdicts `vs` that follow it.
  checked_ok :
      (p : Probe W) (c : Option String × W) (ok : Bool) (vs : List (String × Option String))
      (m : List (String × String)) (w : W)
      → ((record_check p c (record { checks = m; all_ok = ok; world = w })).all_ok && all_pass vs)
        ≡ (ok && all_pass ((p.name, c.0) ∷ vs))
  unfolding record_check
  checked_ok p (none, v) ok vs m w = refl
  checked_ok p (some e, v) true vs m w = refl
  checked_ok p (some e, v) false vs m w = refl

  checked_map :
      (p : Probe W) (c : Option String × W) (r : Round W) (k : String)
      (vs : List (String × Option String))
      → or_else (last_verdict k vs) (check_of k (record_check p c r).checks)
        ≡ or_else (last_verdict k ((p.name, c.0) ∷ vs)) (check_of k r.checks)
  unfolding record_check
  checked_map p (none, v) r k vs = elim (Option-cases (last_verdict k vs)) [
    | inl e ↦
        rw (e, check_of-set_check p.name k "ok" r.checks)
          (or_else_if (str_eq p.name k) "ok" (check_of k r.checks))
    | inr (a, e) ↦ rw (e) refl
  ]
  checked_map p (some t, v) r k vs = elim (Option-cases (last_verdict k vs)) [
    | inl e ↦
        rw (e, check_of-set_check p.name k t r.checks)
          (or_else_if (str_eq p.name k) t (check_of k r.checks))
    | inr (a, e) ↦ rw (e) refl
  ]

  checked_world :
      (p : Probe W) (c : Option String × W) (r : Round W) → (record_check p c r).world ≡ c.1
  unfolding record_check
  checked_world p (none, v) r = refl
  checked_world p (some e, v) r = refl

  probed_ok :
      (ps : List (Probe W)) (r : Round W)
      → (check_probes ps r).all_ok ≡ (r.all_ok && all_pass (verdicts ps r.world))
  unfolding check_probes
  probed_ok [] r = elim (Bool-cases r.all_ok) [ inl t ↦ rw (t) refl | inr f ↦ rw (f) refl ]
  probed_ok (p ∷ ps) r =
      probed_ok ps (record_check p (p.check r.world) r)
      ∙ (ap (λ w. (record_check p (p.check r.world) r).all_ok && all_pass (verdicts ps w))
            (checked_world p (p.check r.world) r)
          ∙ checked_ok p (p.check r.world) r.all_ok (verdicts ps (p.check r.world).1) r.checks
              r.world)

  probed_map :
      (ps : List (Probe W)) (r : Round W) (k : String)
      → check_of k (check_probes ps r).checks
        ≡ or_else (last_verdict k (verdicts ps r.world)) (check_of k r.checks)
  unfolding check_probes
  probed_map [] r k = refl
  probed_map (p ∷ ps) r k =
      probed_map ps (record_check p (p.check r.world) r) k
      ∙ (ap
            (λ w.
              or_else (last_verdict k (verdicts ps w))
                (check_of k (record_check p (p.check r.world) r).checks))
            (checked_world p (p.check r.world) r)
          ∙ checked_map p (p.check r.world) r k (verdicts ps (p.check r.world).1))

  -- The readiness check answers 200 and "healthy" exactly if every probe passes, and otherwise 503 and
  -- "unhealthy". Under each name its map has the verdict of the last probe of that name only, so
  -- that the map can show "ok" alone while the check fails.
  pub check_all_lem :
      (ps : List (Probe W)) (w : W)
      → ((check_all ps w).0 ≡ (if all_pass (verdicts ps w) then 200 else 503))
        × ((check_all ps w).1.status
            ≡ (if all_pass (verdicts ps w) then "healthy" else "unhealthy"))
        × ((k : String) → check_of k (check_all ps w).1.checks ≡ last_verdict k (verdicts ps w))
  unfolding check_all
  check_all_lem ps w =
      let start : Round W = record { checks = []; all_ok = true; world = w } in
      let same = probed_ok ps start in
      let entries = probed_map ps start in
      elim (Bool-cases (all_pass (verdicts ps w))) [
        | inl t ↦ (
          rw (same, t) refl,
          rw (same, t) refl,
          λ k. rw (same, t) (entries k ∙ or_else-none (last_verdict k (verdicts ps w))),
        )
        | inr f ↦ (
          rw (same, f) refl,
          rw (same, f) refl,
          λ k. rw (same, f) (entries k ∙ or_else-none (last_verdict k (verdicts ps w))),
        )
      ]
