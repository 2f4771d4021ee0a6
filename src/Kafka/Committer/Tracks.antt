-- ===== src/Kafka/Committer/Tracks.antt =====
-- What is known of the committer after a history: each partition against its acknowledgements.
use mathlib.Core.Path.{fun_ext}
use synapse_platform.Prelude.{
  ℕ, ◌≤◌, ◌≡◌, refl, subst, Bool, true, false, List, [], ◌∷◌, Option, none, some, All, arith,
  ==_iff,
}
use synapse_platform.Prelude.Table.{lookup}
use synapse_platform.Kafka.Committer.{
  Message, PartitionProgress, OffsetCommitter, new_offset_committer,
}
use synapse_platform.Kafka.Committer.Walk.{Inv}
use synapse_platform.Kafka.Committer.History.{
  Action, fetched, acked, first_fetch, is_acked, IsValid,
}

-- Every offset from the first one fetched up to the committed one was acknowledged.
pub record Covered (h : List Action) (m : Message) : Type 0 where
  pub first : ℕ
  pub fetched_first : first_fetch m.partition h ≡ some first
  pub acked_all : (o : ℕ) → first ≤ o → o ≤ m.offset → is_acked h m.partition o ≡ true

-- A partition is registered once it is fetched from, and its watermark stands at the first gap.
abbrev pub Part : ℕ → (ℕ → Bool) → Option ℕ → Option PartitionProgress → Type 0
Part k acks none none = Unit
Part k acks (some f) (some p) = Inv k f acks p × (acks p.next ≡ false)
Part k acks _ _ = ⊥

pub record Tracks (h : List Action) (c : OffsetCommitter) : Type 0 where
  pub progress : (k : ℕ) → Part k (is_acked h k) (first_fetch k h) (lookup k c.parts)
  pub sound : All (Covered h) c.commits

pub new-Tracks : Tracks [] new_offset_committer
unfolding new_offset_committer first_fetch lookup
new-Tracks = record { progress = λ k. tt; sound = tt }

first_fetch-some :
    (a : Action) (h : List Action) (k f : ℕ)
    → first_fetch k h ≡ some f
    → first_fetch k (a ∷ h) ≡ some f
unfolding first_fetch
first_fetch-some (fetched m) h k f e = ground arith
first_fetch-some (acked m) h k f e = e

is_acked_mono :
    (a : Action) (h : List Action) (k o : ℕ) → is_acked h k o ≡ true → is_acked (a ∷ h) k o ≡ true
unfolding is_acked
is_acked_mono (fetched m) h k o e = e
is_acked_mono (acked m) h k o e = ground arith

pub Covered-mono : (a : Action) (h : List Action) (m : Message) → Covered h m → Covered (a ∷ h) m
Covered-mono a h m c = record {
  first = c.first;
  fetched_first = first_fetch-some a h m.partition c.first c.fetched_first;
  acked_all = λ o l u. is_acked_mono a h m.partition o (c.acked_all o l u);
}

pub is_acked-none :
    (h : List Action) (k o : ℕ) → IsValid h → first_fetch k h ≡ none → is_acked h k o ≡ false
unfolding first_fetch is_acked
is_acked-none [] k o v e = refl
is_acked-none (fetched m ∷ h) k o v e = is_acked-none h k o v (ground arith)
is_acked-none (acked m ∷ h) k o v e =
    ground (arith, is_acked-none h k o v.1 e, ==_iff m.partition k)

pub Part-none : (k : ℕ) (acks : ℕ → Bool) (f : Option ℕ) → Part k acks f none → f ≡ none
Part-none k acks none p = refl
Part-none k acks (some f) p = absurd p

pub Part-some :
    (k : ℕ) (acks : ℕ → Bool) (f : Option ℕ) (p : PartitionProgress)
    → Part k acks f (some p)
    → (n : ℕ) × (f ≡ some n) × Inv k n acks p × (acks p.next ≡ false)
Part-some k acks none p h = absurd h
Part-some k acks (some f) p h = (f, refl, h.0, h.1)

pub Part-keep :
    (k : ℕ) (acks : ℕ → Bool) (f : Option ℕ) (p : Option PartitionProgress)
    → Part k acks f p
    → Part k acks (elim f [ none ↦ none | some n ↦ some n ]) p
Part-keep k acks none p h = h
Part-keep k acks (some f) p h = h

pub Part-of :
    (k : ℕ) (acks : ℕ → Bool) {f g : Option ℕ} {p q : Option PartitionProgress}
    → f ≡ g
    → p ≡ q
    → Part k acks g q
    → Part k acks f p
Part-of k acks {f} {g} {p} {q} e d h = rw (e, d) h

pub Part-cong :
    (k : ℕ) (a b : ℕ → Bool) (f : Option ℕ) (q : Option PartitionProgress)
    → ((o : ℕ) → a o ≡ b o)
    → Part k a f q
    → Part k b f q
Part-cong k a b f q e h = subst (λ acks. Part k acks f q) (fun_ext e) h
