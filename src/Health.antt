-- ===== src/Health.antt =====
-- internal/health/health.go: the probes of the readiness check.
pub mod Verdicts
use synapse_platform.Prelude.{
  ℕ, Bool, true, false, ◌&&◌, String, Option, none, some, List, [], ◌∷◌, if◌then◌else◌, str_eq,
}

-- A probe may change the world; `none` is a nil error, otherwise the text of the error.
pub record Probe (W : Type 0) : Type 0 where
  pub name : String
  pub check : W → Option String × W

-- `checks` is the Go map, with one entry for each name.
pub record Result : Type 0 where
  pub status : String
  pub checks : List (String × String)

unfoldable pub set_check : String → String → List (String × String) → List (String × String)
set_check k v [] = (k, v) ∷ []
set_check k v ((j, u) ∷ m) =
    let rest = set_check k v m in if str_eq j k then (k, v) ∷ m else (j, u) ∷ rest

abbrev pub verdict : Option String → String
verdict none = "ok"
verdict (some e) = e

-- The state of the loop over the probes.
pub record Round (W : Type 0) : Type 0 where
  pub checks : List (String × String)
  pub all_ok : Bool
  pub world : W

module _ {W : Type 0} where
  -- The body of the loop, for the probe's error and the world that it left.
  unfoldable pub record_check : Probe W → Option String × W → Round W → Round W
  record_check p (none, w) r = record r { checks = set_check p.name "ok" r.checks; world = w }
  record_check p (some e, w) r = record {
    checks = set_check p.name e r.checks;
    all_ok = false;
    world = w;
  }

  unfoldable pub check_probes : List (Probe W) → Round W → Round W
  unfolding record_check
  check_probes [] r = r
  check_probes (p ∷ ps) r = check_probes ps (record_check p (p.check r.world) r)

  -- `CheckAll`: the status, the result and the world that the probes left.
  unfoldable pub check_all : List (Probe W) → W → ℕ × Result × W
  unfolding check_probes
  check_all probes w =
      let r = check_probes probes (record { checks = []; all_ok = true; world = w }) in
      if r.all_ok
      then (200, (record { status = "healthy"; checks = r.checks }), r.world)
      else (503, (record { status = "unhealthy"; checks = r.checks }), r.world)
