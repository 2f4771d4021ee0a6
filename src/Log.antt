-- ===== src/Log.antt =====
-- internal/log/handler.go: the log handler that redacts the values of sensitive keys and cuts long texts.
-- A text is the list of its UTF-8 bytes.
pub mod Clean
use synapse_platform.Prelude.{
  ℕ, zero, suc, Bool, true, false, ◌&&◌, not, String, Option, none, some, List, [], ◌∷◌, ◌++◌,
  if◌then◌else◌, str_eq, ltb, leb, length, take,
}
use synapse_platform.Prelude.Text.{Bytes, codes}

-- A value of `slog`: a text, a group, a LogValuer with what it resolves to, or a value of another kind,
-- which the handler does not look into.
mutual
  pub data Value : Type 0 where
    text : Bytes → Value
    group : Attrs → Value
    log_valuer : Value → Value
    other_kind : ℕ → Value

  pub data Attrs : Type 0 where
    no_attrs : Attrs
    attr : String → Value → Attrs → Attrs

-- `redact` is the set of keys, `max_size` is 0 for no cap.
pub record Options : Type 0 where
  pub redact : List String
  pub max_size : ℕ

unfoldable pub is_sensitive : String → List String → Bool
is_sensitive k [] = false
is_sensitive k (j ∷ js) = if str_eq j k then true else is_sensitive k js

abbrev pub default_redacted : Bytes
default_redacted = codes "[REDACTED]"

-- The text "…[truncated]": its first character has three bytes.
abbrev pub truncated_suffix : Bytes
truncated_suffix = 226 ∷ 128 ∷ 166 ∷ codes "[truncated]"

-- `utf8.RuneStart` of a byte: no continuation byte.
abbrev pub rune_start : ℕ → Bool
rune_start b = not (leb 128 b && ltb b 192)

abbrev pub byte_at : ℕ → Bytes → ℕ
byte_at i [] = 0
byte_at zero (b ∷ bs) = b
byte_at (suc i) (b ∷ bs) = byte_at i bs

-- The loop that moves `cut` back to the start of a character.
unfoldable pub rune_cut : Bytes → ℕ → ℕ
rune_cut s zero = 0
rune_cut s (suc n) =
    let earlier = rune_cut s n in if rune_start (byte_at (suc n) s) then suc n else earlier

module _ (o : Options) where
  unfoldable pub cap_text : Bytes → Bytes
  unfolding rune_cut
  cap_text s =
      if ltb 0 o.max_size && ltb o.max_size (length s)
      then take (rune_cut s o.max_size) s ++ truncated_suffix
      else s

  -- `transformAttr`, on the value and on the attributes of a group. The key decides once the value is resolved.
  unfoldable mutual
    unfolding cap_text is_sensitive

    pub transform_value : Value → Value
    transform_value (text s) = text (cap_text s)
    transform_value (group attrs) = group (transform_attrs attrs)
    transform_value (log_valuer v) = transform_value v
    transform_value (other_kind n) = other_kind n

    pub transform_attrs : Attrs → Attrs
    transform_attrs no_attrs = no_attrs
    transform_attrs (attr k v rest) =
        let later = transform_attrs rest in
        let value = transform_value v in
        if is_sensitive k o.redact then attr k (text default_redacted) later else attr k value later

pub record LogRecord : Type 0 where
  pub message : String
  pub level : ℕ
  pub attrs : Attrs

-- The operations of a `slog.Handler`; `W` is what it writes to.
pub record SlogHandler (H W : Type 0) : Type 0 where
  pub enabled : H → ℕ → Bool
  pub handle : H → LogRecord → W → Option String × W
  pub with_attrs : H → Attrs → H
  pub with_group : H → String → H

pub record RedactingHandler (H : Type 0) : Type 0 where
  pub inner : H
  pub options : Options

-- What a logger does to its handler before it logs.
pub data Derivation : Type 0 where
  attrs_added : Attrs → Derivation
  group_added : String → Derivation

module _ {H W : Type 0} (i : SlogHandler H W) where
  unfoldable pub is_enabled : RedactingHandler H → ℕ → Bool
  is_enabled h level = i.enabled h.inner level

  unfoldable pub handle_record : RedactingHandler H → LogRecord → W → Option String × W
  unfolding transform_attrs
  handle_record h r w = i.handle h.inner (record r { attrs = transform_attrs h.options r.attrs }) w

  unfoldable pub add_attrs : RedactingHandler H → Attrs → RedactingHandler H
  unfolding transform_attrs
  add_attrs h attrs = record h { inner = i.with_attrs h.inner (transform_attrs h.options attrs) }

  unfoldable pub add_group : RedactingHandler H → String → RedactingHandler H
  add_group h name = record h { inner = i.with_group h.inner name }

  unfoldable pub derive : List Derivation → RedactingHandler H → RedactingHandler H
  unfolding add_attrs add_group
  derive [] h = h
  derive (attrs_added a ∷ ds) h = derive ds (add_attrs h a)
  derive (group_added n ∷ ds) h = derive ds (add_group h n)
