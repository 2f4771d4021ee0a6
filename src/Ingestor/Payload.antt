-- ===== src/Ingestor/Payload.antt =====
-- internal/ingestor/normalized_message.go: the payloads of an event, how they are normalized and
-- what their struct tags ask for. Floating-point numbers, the text functions of the standard
-- library and the validator package are parameters.
pub mod Checked
use synapse_platform.Prelude.{
  ℕ, ◌≡◌, Bool, true, false, not, ◌&&◌, String, Option, none, some, List, [], ◌∷◌, if◌then◌else◌,
}
use synapse_platform.Ingestor.Errors.{GoError, processor_error, validating_data}
use synapse_platform.Ingestor.Message.{Labels}

-- The operations and constants that the code uses; a `float32` is one of these numbers too. No
-- value is NaN, since JSON has none.
pub record Numbers : Type 1 where
  pub F : Type 0
  pub lt : F → F → Bool
  pub eq : F → F → Bool
  pub mul : F → F → F
  pub div : F → F → F
  pub zero : F
  pub minus_fifty : F
  pub ten : F
  pub hundred : F
  pub five_hundred : F
  pub thousand : F

-- What is used of the order of these numbers.
pub record IsOrdered (n : Numbers) : Type 0 where
  pub lt_irrefl : (x : n.F) → n.lt x x ≡ false
  pub eq_refl : (x : n.F) → n.eq x x ≡ true
  pub hundred_fifty : n.lt n.hundred n.minus_fifty ≡ false
  pub hundred_zero : n.lt n.hundred n.zero ≡ false
  pub five_hundred_zero : n.lt n.five_hundred n.zero ≡ false

pub record GoStrings : Type 0 where
  pub to_lower : String → String
  pub to_upper : String → String
  pub trim_space : String → String

-- The tags on a number and on a text.
pub data Tag (F : Type 0) : Type 0 where
  required : Tag F
  gte lte : F → Tag F

pub data TextTag : Type 0 where
  text_required : TextTag
  one_of : List String → TextTag

-- `validate.Struct` on one field: the first tag that fails makes an error.
pub record Validator (n : Numbers) : Type 0 where
  pub check_number : List (Tag n.F) → n.F → Option GoError
  pub check_text : List TextTag → String → Option GoError

module _ (n : Numbers) where
  open n use {F, lt, eq, mul, div, zero, minus_fifty, ten, hundred, five_hundred, thousand}

  pub record EnergyReading : Type 0 where
    pub power_w : F
    pub energy_wh : F
    pub voltage_v : F
    pub current_ma : F

  pub record FinancialTransaction : Type 0 where
    pub amount_minor : F
    pub currency : String
    pub merchant : String
    pub status : String

  pub record EnvironmentalSensor : Type 0 where
    pub temperature_c : F
    pub humidity_percent : F
    pub air_quality_index : F

  -- The four implementations of `NormalizedData`.
  pub data Payload : Type 0 where
    energy : EnergyReading → Payload
    financial : FinancialTransaction → Payload
    environmental : EnvironmentalSensor → Payload
    unknown_event : Option Labels → Payload

  at_least_zero : F → F
  at_least_zero x = if lt x zero then zero else x

  missing_power : EnergyReading → Bool
  missing_power er = eq er.power_w zero && (lt zero er.voltage_v && lt zero er.current_ma)

  calculate_power : EnergyReading → EnergyReading
  unfolding missing_power
  calculate_power er =
      if missing_power er
      then record er { power_w = div (mul er.voltage_v er.current_ma) thousand }
      else er

  round_power : EnergyReading → EnergyReading
  round_power er = record er { power_w = mul (div er.power_w ten) ten }

  -- `EnergyReading.Normalize`
  unfoldable pub normalize_energy : EnergyReading → EnergyReading
  unfolding at_least_zero calculate_power round_power
  normalize_energy er = round_power (
      calculate_power (record {
        power_w = at_least_zero er.power_w;
        energy_wh = at_least_zero er.energy_wh;
        voltage_v = at_least_zero er.voltage_v;
        current_ma = at_least_zero er.current_ma;
      }))

  clamp_between : F → F → F → F
  clamp_between lo hi x =
      let raised = if lt x lo then lo else x in if lt hi raised then hi else raised

  -- `EnvironmentalSensor.Normalize`
  unfoldable pub normalize_environmental : EnvironmentalSensor → EnvironmentalSensor
  unfolding clamp_between
  normalize_environmental es = record {
    temperature_c = clamp_between minus_fifty hundred es.temperature_c;
    humidity_percent = clamp_between zero hundred es.humidity_percent;
    air_quality_index = clamp_between zero five_hundred es.air_quality_index;
  }

  module _ (s : GoStrings) where
    open s use {to_lower, to_upper, trim_space}

    -- `FinancialTransaction.Normalize`
    pub normalize_financial : FinancialTransaction → FinancialTransaction
    normalize_financial ft = record ft {
      currency = to_upper (trim_space ft.currency);
      status = to_lower (trim_space ft.status);
      merchant = trim_space ft.merchant;
    }

    -- `NormalizedData.Normalize`, which never fails.
    unfoldable pub normalize : Payload → Payload
    normalize (energy er) = energy (normalize_energy er)
    normalize (financial ft) = financial (normalize_financial ft)
    normalize (environmental es) = environmental (normalize_environmental es)
    normalize (unknown_event d) = unknown_event d

  module _ (v : Validator n) where
    open v use {check_number, check_text}

    abbrev first_error : List (Option GoError) → Option GoError
    first_error [] = none
    first_error (none ∷ rest) = first_error rest
    first_error (some e ∷ rest) = some e

    -- `validate.Struct` by the struct tags.
    pub check_energy : EnergyReading → Option GoError
    check_energy er = first_error (
        check_number (required ∷ gte zero ∷ []) er.power_w
        ∷ check_number (required ∷ gte zero ∷ []) er.energy_wh
        ∷ check_number (required ∷ gte zero ∷ lte five_hundred ∷ []) er.voltage_v
        ∷ check_number (required ∷ gte zero ∷ []) er.current_ma
        ∷ [])

    pub check_financial : FinancialTransaction → Option GoError
    check_financial ft = first_error (
        check_number (required ∷ []) ft.amount_minor
        ∷ check_text (text_required ∷ []) ft.currency
        ∷ check_text (text_required ∷ []) ft.merchant
        ∷ check_text (text_required ∷ one_of ("completed" ∷ "failed" ∷ "pending" ∷ []) ∷ [])
            ft.status
        ∷ [])

    pub check_environmental : EnvironmentalSensor → Option GoError
    check_environmental es = first_error (
        check_number (required ∷ gte minus_fifty ∷ lte hundred ∷ []) es.temperature_c
        ∷ check_number (required ∷ gte zero ∷ lte hundred ∷ []) es.humidity_percent
        ∷ check_number (required ∷ gte zero ∷ lte five_hundred ∷ []) es.air_quality_index
        ∷ [])

    check : Payload → Option GoError
    unfolding check_energy check_financial check_environmental
    check (energy er) = check_energy er
    check (financial ft) = check_financial ft
    check (environmental es) = check_environmental es
    check (unknown_event d) = none

    wrap_validation : Option GoError → Option GoError
    wrap_validation none = none
    wrap_validation (some e) = some (processor_error validating_data "data" "NormalizedData" e)

    -- `NormalizedData.Validate`
    unfoldable pub validate : Payload → Option GoError
    unfolding check wrap_validation
    validate p = wrap_validation (check p)
