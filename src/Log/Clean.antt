-- ===== src/Log/Clean.antt =====
-- What reaches the handler behind the redaction.
use mathlib.Core.List.{append-nil, append_assoc}
use synapse_platform.Prelude.{
  ℕ, zero, suc, ◌+◌, ◌≤◌, ◌≡◌, refl, sym, inl, inr, true, none, Bool-cases, List, [], ◌∷◌, ◌++◌,
  ltb, length, length-append, length-take, take, arith, subst, ◌∙◌,
}
use synapse_platform.Prelude.Text.{Bytes}
use synapse_platform.Log.{
  Value, Attrs, text, group, LogRecord, SlogHandler, RedactingHandler, Derivation, attrs_added,
  group_added, derive, add_attrs, add_group, handle_record, log_valuer, other_kind, no_attrs, attr,
  Options, is_sensitive, default_redacted, truncated_suffix, rune_cut, rune_start, byte_at,
  cap_text, transform_value, transform_attrs,
}

-- A text is at most as long as the cap, if there is one, and the 14 bytes of the suffix.
abbrev pub IsCapped : Options → Bytes → Type 0
IsCapped o s = ltb 0 o.max_size ≡ true → length s ≤ o.max_size + 14

-- At every depth a sensitive key has the redacted text only, texts are capped, and nothing is left to
-- be resolved.
mutual
  pub IsClean : Options → Value → Type 0
  IsClean o (text s) = IsCapped o s
  IsClean o (group attrs) = AllClean o attrs
  IsClean o (log_valuer v) = ⊥
  IsClean o (other_kind n) = Unit

  pub AllClean : Options → Attrs → Type 0
  AllClean o no_attrs = Unit
  AllClean o (attr k v rest) =
      (is_sensitive k o.redact ≡ true → v ≡ text default_redacted) × (IsClean o v × AllClean o rest)

rune_cut-le : (s : Bytes) (n : ℕ) → rune_cut s n ≤ n
unfolding rune_cut
rune_cut-le s zero = omega arith
rune_cut-le s (suc n) = elim (Bool-cases (rune_start (byte_at (suc n) s))) [
  | inl t ↦ rw (rune_cut, t) (omega arith)
  | inr f ↦ rw (rune_cut, f) (omega (arith, rune_cut-le s n))
]

cap_text-IsCapped : (o : Options) (s : Bytes) → IsCapped o (cap_text o s)
unfolding cap_text
cap_text-IsCapped o s = λ capped. elim (Bool-cases (ltb o.max_size (length s))) [
  | inl long ↦
      let cut = rune_cut s o.max_size in
      let both : length (take cut s ++ truncated_suffix) ≡ length (take cut s) + 14 =
        length-append (take cut s) truncated_suffix in
      rw (cap_text, capped, long) (omega (arith, both, length-take cut s, rune_cut-le s o.max_size))
  | inr short ↦ rw (cap_text, capped, short) (ground arith)
]

mutual
  unfolding transform_value IsClean

  transform_value-IsClean : (o : Options) (v : Value) → IsClean o (transform_value o v)
  transform_value-IsClean o (text s) = cap_text-IsCapped o s
  transform_value-IsClean o (group attrs) = transform_attrs-AllClean o attrs
  transform_value-IsClean o (log_valuer v) = transform_value-IsClean o v
  transform_value-IsClean o (other_kind n) = tt

  transform_attrs-AllClean : (o : Options) (attrs : Attrs) → AllClean o (transform_attrs o attrs)
  transform_attrs-AllClean o no_attrs = tt
  transform_attrs-AllClean o (attr k v rest) = elim (Bool-cases (is_sensitive k o.redact)) [
    | inl t ↦
        rw (transform_attrs, t) ((λ e. refl), ((λ e. omega arith), transform_attrs-AllClean o rest))
    | inr f ↦
        rw (transform_attrs, f)
          (
            (λ e. absurd (ground arith)),
            (transform_value-IsClean o v, transform_attrs-AllClean o rest),
          )
  ]

-- A handler that keeps what it is given: the attributes and the group names that were added to it, in
-- order, and the records that it was to write.
abbrev pub recorder : SlogHandler (List Derivation) (List LogRecord)
recorder = record {
  enabled = λ h level. true;
  handle = λ h r w. (none, r ∷ w);
  with_attrs = λ h attrs. h ++ (attrs_added attrs ∷ []);
  with_group = λ h name. h ++ (group_added name ∷ []);
}

-- Step by step, what a logger asked for and what was passed on: attributes are clean then, and the
-- name of a group is the same, whatever it is.
abbrev pub PassedOn : Options → List Derivation → List Derivation → Type 0
PassedOn o [] [] = Unit
PassedOn o (attrs_added a ∷ ds) (attrs_added b ∷ es) = AllClean o b × PassedOn o ds es
PassedOn o (group_added n ∷ ds) (group_added m ∷ es) = (m ≡ n) × PassedOn o ds es
PassedOn o _ _ = ⊥

-- The handler behind the redaction has what it had, and then what was passed on.
record Derived (o : Options) (ds given : List Derivation) (h : RedactingHandler (List Derivation))
    : Type 0 where
  added : List Derivation
  inner_has : h.inner ≡ given ++ added
  passed_on : PassedOn o ds added
  same_options : h.options ≡ o

derive-Derived :
    (o : Options) (ds given : List Derivation)
    → Derived o ds given (derive recorder ds (record { inner = given; options = o }))
unfolding derive add_attrs add_group
derive-Derived o [] given = record {
  added = [];
  inner_has = sym (append-nil given);
  passed_on = tt;
  same_options = refl;
}
derive-Derived o (attrs_added a ∷ ds) given =
    let b : Derivation = attrs_added (transform_attrs o a) in
    let later = derive-Derived o ds (given ++ (b ∷ [])) in
    record {
      added = b ∷ later.added;
      inner_has = later.inner_has ∙ append_assoc given (b ∷ []) later.added;
      passed_on = (transform_attrs-AllClean o a, later.passed_on);
      same_options = later.same_options;
    }
derive-Derived o (group_added n ∷ ds) given =
    let later = derive-Derived o ds (given ++ (group_added n ∷ [])) in
    record {
      added = group_added n ∷ later.added;
      inner_has = later.inner_has ∙ append_assoc given (group_added n ∷ []) later.added;
      passed_on = (refl, later.passed_on);
      same_options = later.same_options;
    }

-- However a logger derives its handler from a redacting one, with attributes and groups, the inner
-- handler is given, in the same order, attributes that are clean and group names as they are; and a
-- record comes to it with clean attributes and its message and level as they are. In clean
-- attributes, at every depth, also behind a LogValuer, a sensitive key has the redacted text, and,
-- if there is a cap, no text is longer than it and its suffix; values of other kinds are passed on.
-- The name given to WithGroup is not compared with the sensitive keys: attributes that come after
-- it are redacted by their own keys only. The message is not capped.
pub handle_record-AllClean :
    (o : Options) (ds : List Derivation) (r : LogRecord)
    → let h = derive recorder ds (record { inner = []; options = o }) in
      PassedOn o ds h.inner
      × ((q : LogRecord) × ((handle_record recorder h r []) ≡ (none, q ∷ []))
          × AllClean o q.attrs
          × (q.message ≡ r.message)
          × (q.level ≡ r.level))
unfolding handle_record
handle_record-AllClean o ds r =
    let d = derive-Derived o ds [] in
    (
      subst (PassedOn o ds) (sym d.inner_has) d.passed_on,
      (
        _,
        refl,
        subst (λ p. AllClean o (transform_attrs p r.attrs)) (sym d.same_options)
            (transform_attrs-AllClean o r.attrs),
        refl,
        refl,
      ),
    )
