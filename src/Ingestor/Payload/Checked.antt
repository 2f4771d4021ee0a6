-- ===== src/Ingestor/Payload/Checked.antt =====
-- What the struct tags say of a normalized payload.
use synapse_platform.Prelude.{
  ◌≡◌, ◌∙◌, ◌⊎◌, Bool, true, false, not, ◌&&◌, Option, none, some, List, [], ◌∷◌, arith,
}
use synapse_platform.Ingestor.Payload.{
  Numbers, IsOrdered, Tag, required, gte, lte, Validator, EnergyReading, EnvironmentalSensor,
  clamp_between, normalize_energy, normalize_environmental, check_energy, check_environmental,
}

abbrev pub is_none : {A : Type 0} → Option A → Bool
is_none none = true
is_none (some a) = false

-- The documented meaning of the tags: `required` refuses the zero value of a number.
abbrev pub meets : (n : Numbers) → Tag n.F → n.F → Bool
meets n required x = not (n.eq x n.zero)
meets n (gte c) x = not (n.lt x c)
meets n (lte c) x = not (n.lt c x)

abbrev pub meets_all : (n : Numbers) → List (Tag n.F) → n.F → Bool
meets_all n [] x = true
meets_all n (t ∷ ts) x = meets n t x && meets_all n ts x

abbrev pub IsDocumented : (n : Numbers) → Validator n → Type 0
IsDocumented n v =
    (ts : List (Tag n.F)) (x : n.F) → is_none (v.check_number ts x) ≡ meets_all n ts x

module _ (n : Numbers) (o : IsOrdered n) (v : Validator n) (doc : IsDocumented n v) where
  abbrev pub nonzero : n.F → Bool
  nonzero x = not (n.eq x n.zero)

  clamp_in_range :
      (lo hi x : n.F)
      → n.lt hi lo ≡ false
      → (n.lt (clamp_between n lo hi x) lo ≡ false) × (n.lt hi (clamp_between n lo hi x) ≡ false)
  unfolding clamp_between
  clamp_in_range lo hi x h = ground (arith, o.lt_irrefl lo, o.lt_irrefl hi)

  clamped_meets :
      (lo hi x : n.F)
      → n.lt hi lo ≡ false
      → meets_all n (required ∷ gte lo ∷ lte hi ∷ []) (clamp_between n lo hi x)
        ≡ nonzero (clamp_between n lo hi x)
  clamped_meets lo hi x h = let (low, high) = clamp_in_range lo hi x h in ground (arith, low, high)

  clamped_check :
      (lo hi x : n.F)
      → n.lt hi lo ≡ false
      → is_none (v.check_number (required ∷ gte lo ∷ lte hi ∷ []) (clamp_between n lo hi x))
        ≡ nonzero (clamp_between n lo hi x)
  clamped_check lo hi x h =
      doc (required ∷ gte lo ∷ lte hi ∷ []) (clamp_between n lo hi x) ∙ clamped_meets lo hi x h

  -- After `Normalize` an environmental reading is in range, and `Validate` accepts it exactly if
  -- none of its three values is zero: a temperature of 0 °C is refused.
  pub environmental_accepted :
      (es : EnvironmentalSensor n)
      → let r = normalize_environmental n es in
        is_none (check_environmental n v r)
        ≡ (nonzero r.temperature_c && (nonzero r.humidity_percent && nonzero r.air_quality_index))
  unfolding normalize_environmental check_environmental
  environmental_accepted es = ground (
    arith,
    clamped_check n.minus_fifty n.hundred es.temperature_c o.hundred_fifty,
    clamped_check n.zero n.hundred es.humidity_percent o.hundred_zero,
    clamped_check n.zero n.five_hundred es.air_quality_index o.five_hundred_zero,
  )

  zero_refused : (ts : List (Tag n.F)) → is_none (v.check_number (required ∷ ts) n.zero) ≡ false
  zero_refused ts = doc (required ∷ ts) n.zero ∙ ground (arith, o.eq_refl n.zero)

  -- An energy reading with a negative energy, voltage or current is refused after `Normalize`, which
  -- sets the negative value to zero.
  pub negative_energy_refused :
      (er : EnergyReading n)
      → (n.lt er.energy_wh n.zero ≡ true)
        ⊎ ((n.lt er.voltage_v n.zero ≡ true) ⊎ (n.lt er.current_ma n.zero ≡ true))
      → is_none (check_energy n v (normalize_energy n er)) ≡ false
  unfolding normalize_energy check_energy
  negative_energy_refused er h =
      ground
        (arith, zero_refused (gte n.zero ∷ []), zero_refused (gte n.zero ∷ lte n.five_hundred ∷ []))
