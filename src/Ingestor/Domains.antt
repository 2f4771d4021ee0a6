-- ===== src/Ingestor/Domains.antt =====
-- internal/ingestor/const.go: data types and domains, which are strings.
use synapse_platform.Prelude.{
  Bool, true, false, ◌||◌, ◌≡◌, refl, Option, none, some, String, List, [], ◌∷◌, if◌then◌else◌,
  str_eq, str_eq_iff, Bool-cases, inl, inr, subst, sym,
}

abbrev pub DataTypes : Type 0
DataTypes = String

abbrev pub Domains : Type 0
Domains = String

abbrev pub energy_domain : Domains
energy_domain = "energy"

abbrev pub finance_domain : Domains
finance_domain = "finance"

abbrev pub unknown_domain : Domains
unknown_domain = "unknown"

abbrev pub data_type_unknown : DataTypes
data_type_unknown = "unknown"

unfoldable pub all_data_types : List DataTypes
all_data_types =
    "temperature_sensor" ∷ "climate_sensor" ∷ "ev_charger" ∷ "grid_meter" ∷ "motion_sensor"
    ∷ "financial_stream" ∷ "energy_meter" ∷ "solar_panel" ∷ "battery" ∷ []

-- `Domains.IsValid`
unfoldable pub domain_is_valid : Domains → Bool
domain_is_valid d = str_eq d energy_domain || str_eq d finance_domain

-- `DataTypes.IsValid`
unfoldable pub is_valid : DataTypes → Bool
is_valid d =
    str_eq d "temperature_sensor"
    || (str_eq d "climate_sensor"
        || (str_eq d "ev_charger"
            || (str_eq d "grid_meter"
                || (str_eq d "motion_sensor"
                    || (str_eq d "financial_stream"
                        || (str_eq d "energy_meter"
                            || (str_eq d "solar_panel" || str_eq d "battery")))))))

unfoldable pub parse_data_type : String → DataTypes
unfolding is_valid
parse_data_type s = if is_valid s then s else data_type_unknown

-- The map `typeToDomain`.
unfoldable pub type_to_domain : DataTypes → Option Domains
type_to_domain d =
    if str_eq d "temperature_sensor"
    then some energy_domain
    else if str_eq d "climate_sensor"
    then some energy_domain
    else if str_eq d "ev_charger"
    then some energy_domain
    else if str_eq d "grid_meter"
    then some energy_domain
    else if str_eq d "energy_meter"
    then some energy_domain
    else if str_eq d "solar_panel"
    then some energy_domain
    else if str_eq d "battery"
    then some energy_domain
    else if str_eq d "financial_stream"
    then some finance_domain
    else if str_eq d "motion_sensor"
    then some energy_domain
    else if str_eq d data_type_unknown
    then some unknown_domain
    else none

unfoldable pub parse_domain_type : String → Domains
unfolding parse_data_type type_to_domain
parse_domain_type s = elim (type_to_domain (parse_data_type s)) [
  | some domain ↦ domain
  | none ↦ unknown_domain
]

abbrev Cases : String → Type 0
Cases s =
    (is_valid s ≡ true
      → parse_domain_type s
        ≡ (if str_eq s "financial_stream" then finance_domain else energy_domain))
    × (is_valid s ≡ false → parse_domain_type s ≡ unknown_domain)
    × (domain_is_valid (parse_domain_type s) ≡ is_valid s)

split_on : (P : String → Type 0) (s k : String) → P k → (str_eq s k ≡ false → P s) → P s
split_on P s k here other = elim (Bool-cases (str_eq s k)) [
  | inl same ↦ subst P (sym ((str_eq_iff s k).0 same)) here
  | inr differs ↦ other differs
]

other_Cases : (s : String) → is_valid s ≡ false → Cases s
unfolding parse_domain_type domain_is_valid
other_Cases s e =
    let parsed : parse_data_type s ≡ data_type_unknown = rw (e, parse_data_type) refl in
    let domain : parse_domain_type s ≡ unknown_domain = rw (parsed, parse_domain_type) refl in
    (λ v. cc, λ _. domain, rw (domain, e) refl)

-- Exactly the valid data types have one of the two business domains, and of those only
-- `financial_stream` has `finance`; every other text falls to `unknown`.
parse_domain_type-cases :
    (s : String)
    → (is_valid s ≡ true
        → parse_domain_type s
          ≡ (if str_eq s "financial_stream" then finance_domain else energy_domain))
      × (is_valid s ≡ false → parse_domain_type s ≡ unknown_domain)
      × (domain_is_valid (parse_domain_type s) ≡ is_valid s)
unfolding parse_domain_type domain_is_valid
parse_domain_type-cases s =
    split_on Cases s "temperature_sensor" (λ _. refl, λ e. cc, refl)
      λ n0.
        split_on Cases s "climate_sensor" (λ _. refl, λ e. cc, refl)
          λ n1.
            split_on Cases s "ev_charger" (λ _. refl, λ e. cc, refl)
              λ n2.
                split_on Cases s "grid_meter" (λ _. refl, λ e. cc, refl)
                  λ n3.
                    split_on Cases s "motion_sensor" (λ _. refl, λ e. cc, refl)
                      λ n4.
                        split_on Cases s "financial_stream" (λ _. refl, λ e. cc, refl)
                          λ n5.
                            split_on Cases s "energy_meter" (λ _. refl, λ e. cc, refl)
                              λ n6.
                                split_on Cases s "solar_panel" (λ _. refl, λ e. cc, refl)
                                  λ n7.
                                    split_on Cases s "battery" (λ _. refl, λ e. cc, refl)
                                      λ n8.
                                        other_Cases s
                                          (rw (n0, n1, n2, n3, n4, n5, n6, n7, n8, is_valid) refl)
