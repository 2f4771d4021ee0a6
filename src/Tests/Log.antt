-- ===== src/Tests/Log.antt =====
-- A token behind a LogValuer in a group, a group with the name of a sensitive key, and a long text.
use synapse_platform.Prelude.{◌≡◌, refl, ◌++◌, String, Option, none, List, [], ◌∷◌}
use synapse_platform.Prelude.Text.{codes}
use synapse_platform.Log.{
  Attrs, text, group, log_valuer, no_attrs, attr, Options, default_redacted, truncated_suffix,
  LogRecord, attrs_added, group_added, Derivation, is_sensitive, rune_cut, cap_text,
  transform_attrs, transform_value, handle_record, add_attrs, add_group, derive,
}
use synapse_platform.Log.Clean.{AllClean, PassedOn, handle_record-AllClean}

program : Unit {0}
unfolding is_sensitive rune_cut cap_text transform_attrs transform_value handle_record add_attrs
    add_group derive
program = tt

abbrev options : Options
options = record { redact = "token" ∷ []; max_size = 3 }

abbrev request : Attrs
request =
    attr "request"
      (log_valuer (
        group
          (attr "token" (text (codes "abc")) (attr "path" (text (codes "/v1/events")) no_attrs))))
      no_attrs

run_transform :
    transform_attrs options request
    ≡ attr "request"
        (group (
          attr "token"
            (text default_redacted)
            (attr "path" (text (codes "/v1" ++ truncated_suffix)) no_attrs)))
        no_attrs
unfolding program
run_transform = refl

abbrev derivations : List Derivation
derivations = attrs_added request ∷ group_added "token" ∷ []

abbrev line : LogRecord
line = record { message = "served"; level = 0; attrs = request }

abbrev passed : List Derivation
passed = attrs_added (transform_attrs options request) ∷ group_added "token" ∷ []

handle_record-AllClean_example :
    PassedOn options derivations passed
    × ((q : LogRecord) × (◌≡◌ {A = Option String × List LogRecord}
          (none, (record line { attrs = transform_attrs options request }) ∷ [])
          (none, q ∷ []))
        × AllClean options q.attrs
        × (q.message ≡ "served")
        × (q.level ≡ 0))
unfolding program
handle_record-AllClean_example = handle_record-AllClean options derivations line
