-- ===== src/Prelude/Sorting.antt =====
-- A stable sort by a Boolean test "comes before": on lists without ties its result does not depend
-- on the order of the list. The order of texts by their codes.
use mathlib.Core.Path.{◌≡◌, refl, ap, ◌∙◌, subst}
use mathlib.Core.Logic.{inl, inr}
use mathlib.Core.Bool.{Bool, true, false, ◌&&◌, ◌||◌, not}
use mathlib.Core.List.{List, [], ◌∷◌, Permᴰ}
use native.Mathlib.Omega.{arith}
use synapse_platform.Prelude.Tests.{◌==◌, ltb, if◌then◌else◌, Bool-cases}
use synapse_platform.Prelude.Lists.{All}
use synapse_platform.Prelude.Text.{Bytes, bytes_eq}

module _ {A : Type 0} (before : A → A → Bool) where
  unfoldable pub insert_sorted : A → List A → List A
  insert_sorted a [] = a ∷ []
  insert_sorted a (x ∷ xs) =
      let rest = insert_sorted a xs in if before x a then x ∷ rest else a ∷ x ∷ xs

  unfoldable pub sort_stable : List A → List A
  unfolding insert_sorted
  sort_stable [] = []
  sort_stable (x ∷ xs) = insert_sorted x (sort_stable xs)

  abbrev pub IsTransitive : Type 0
  IsTransitive = (a b c : A) → before a b ≡ true → before b c ≡ true → before a c ≡ true

  -- Exactly one of the two comes before the other.
  abbrev pub Apart : A → A → Type 0
  Apart a b = before a b ≡ not (before b a)

  abbrev pub AllApart : List A → Type 0
  AllApart [] = Unit
  AllApart (x ∷ xs) = All (Apart x) xs × AllApart xs

  Apart-sym : (a b : A) → Apart a b → Apart b a
  Apart-sym a b h = elim (Bool-cases (before b a)) [
    | inl t ↦ let e : before a b ≡ false = cc in rw (e, t) refl
    | inr f ↦ let e : before a b ≡ true = cc in rw (e, f) refl
  ]

  insert_comm :
      IsTransitive
      → (a b : A) (xs : List A) → Apart a b
      → insert_sorted a (insert_sorted b xs) ≡ insert_sorted b (insert_sorted a xs)
  unfolding insert_sorted
  insert_comm trans a b [] apart = elim (Bool-cases (before b a)) [
    | inl t ↦ let e : before a b ≡ false = cc in rw (e, t) refl
    | inr f ↦ let e : before a b ≡ true = cc in rw (e, f) refl
  ]
  insert_comm trans a b (x ∷ xs) apart = elim (Bool-cases (before x a)) [
    | inl xa ↦ elim (Bool-cases (before x b)) [
      | inl xb ↦ rw (insert_sorted, xa, xb, xa) (ap (λ l. x ∷ l) (insert_comm trans a b xs apart))
      | inr xb ↦ elim (Bool-cases (before b a)) [
        | inl ba ↦ rw (insert_sorted, xa, xb, ba, xa) refl
        | inr ba ↦
            let ab : before a b ≡ true = cc in
            let no : before x b ≡ true = trans x a b xa ab in absurd (ground arith)
      ]
    ]
    | inr xa ↦ elim (Bool-cases (before x b)) [
      | inl xb ↦ elim (Bool-cases (before b a)) [
        | inl ba ↦ let no : before x a ≡ true = trans x b a xb ba in absurd (ground arith)
        | inr ba ↦ let ab : before a b ≡ true = cc in rw (insert_sorted, xa, xb, ab, xa) refl
      ]
      | inr xb ↦ elim (Bool-cases (before b a)) [
        | inl ba ↦ let ab : before a b ≡ false = cc in rw (insert_sorted, xa, xb, ba, ab, xa) refl
        | inr ba ↦ let ab : before a b ≡ true = cc in rw (insert_sorted, xa, xb, ba, ab) refl
      ]
    ]
  ]

  all_permuted {κ} : (P : A → Type κ) {xs ys : List A} → Permᴰ xs ys → All P xs → All P ys
  all_permuted P Permᴰ.nil h = h
  all_permuted P (Permᴰ.cons e p) h = (subst P e h.0, all_permuted P p h.1)
  all_permuted P (Permᴰ.swap e d) h = (subst P d h.1.0, (subst P e h.0, h.1.1))
  all_permuted P (Permᴰ.trans p q) h = all_permuted P q (all_permuted P p h)

  apart_permuted : {xs ys : List A} → Permᴰ xs ys → AllApart xs → AllApart ys
  apart_permuted Permᴰ.nil h = h
  apart_permuted (Permᴰ.cons {a = a} {l₂ = l} e p) h =
      (subst (λ x. All (Apart x) l) e (all_permuted (Apart a) p h.0), apart_permuted p h.1)
  apart_permuted (Permᴰ.swap {a = a} {b = b} {b' = b'} {l = l} e d) h =
      subst (λ x. AllApart (x ∷ b' ∷ l)) d
        (subst (λ x. AllApart (b ∷ x ∷ l)) e ((Apart-sym a b h.0.0, h.1.0), (h.0.1, h.1.1)))
  apart_permuted (Permᴰ.trans p q) h = apart_permuted q (apart_permuted p h)

  -- Sorting forgets the order of a list in which no two elements tie.
  pub sort_stable_permuted :
      IsTransitive → {xs ys : List A} → Permᴰ xs ys → AllApart xs → sort_stable xs ≡ sort_stable ys
  unfolding sort_stable
  sort_stable_permuted trans Permᴰ.nil h = refl
  sort_stable_permuted trans (Permᴰ.cons {b = b} {l₁ = l} e p) h =
      ap (λ x. insert_sorted x (sort_stable l)) e
      ∙ ap (insert_sorted b) (sort_stable_permuted trans p h.1)
  sort_stable_permuted trans (Permᴰ.swap {a = a} {b = b} {a' = a'} {l = l} e d) h =
      insert_comm trans a b (sort_stable l) h.0.0
      ∙ (ap (λ x. insert_sorted x (insert_sorted a (sort_stable l))) d
          ∙ ap (λ x. insert_sorted a' (insert_sorted x (sort_stable l))) e)
  sort_stable_permuted trans (Permᴰ.trans p q) h =
      sort_stable_permuted trans p h ∙ sort_stable_permuted trans q (apart_permuted p h)

-- The order of texts by their codes, which is that of their UTF-8 bytes.
unfoldable pub bytes_less : Bytes → Bytes → Bool
bytes_less [] [] = false
bytes_less [] (d ∷ ds) = true
bytes_less (c ∷ cs) [] = false
bytes_less (c ∷ cs) (d ∷ ds) = ltb c d || (c == d && bytes_less cs ds)

pub bytes_less_trans :
    (a b c : Bytes) → bytes_less a b ≡ true → bytes_less b c ≡ true → bytes_less a c ≡ true
unfolding bytes_less
bytes_less_trans [] [] c h k = cc
bytes_less_trans [] (b ∷ bs) [] h k = cc
bytes_less_trans [] (b ∷ bs) (c ∷ cs) h k = refl
bytes_less_trans (a ∷ rest) [] c h k = cc
bytes_less_trans (a ∷ rest) (b ∷ bs) [] h k = cc
bytes_less_trans (a ∷ rest) (b ∷ bs) (c ∷ cs) h k = ground (arith, bytes_less_trans rest bs cs)

pub bytes_less_apart : (a b : Bytes) → bytes_eq a b ≡ false → bytes_less a b ≡ not (bytes_less b a)
unfolding bytes_less bytes_eq
bytes_less_apart [] [] h = cc
bytes_less_apart [] (b ∷ bs) h = refl
bytes_less_apart (a ∷ rest) [] h = refl
bytes_less_apart (a ∷ rest) (b ∷ bs) h = ground (arith, bytes_less_apart rest bs)

pub bytes_less_irrefl : (a : Bytes) → bytes_less a a ≡ false
unfolding bytes_less
bytes_less_irrefl [] = refl
bytes_less_irrefl (a ∷ rest) = ground (arith, bytes_less_irrefl rest)
