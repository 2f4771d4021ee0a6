-- ===== src/Kafka/Committer/History.antt =====
-- Histories of the committer: the calls of `Ack` (at fetch) and of the handlers it returned.
use synapse_platform.Prelude.{
  ℕ, Bool, true, false, ◌&&◌, ◌||◌, List, [], ◌∷◌, Option, none, some, ◌≡◌, ◌==◌, if◌then◌else◌,
}
use synapse_platform.Kafka.Committer.{
  Message, OffsetCommitter, new_offset_committer, register, complete,
}
use synapse_platform.Kafka.Committer.Walk.{is_some}

pub data Action : Type 0 where
  fetched acked : Message → Action

-- The offset of the first message fetched from a partition. Histories stand newest first.
unfoldable pub first_fetch : ℕ → List Action → Option ℕ
first_fetch k [] = none
first_fetch k (fetched m ∷ h) = elim (first_fetch k h) [
  | some f ↦ some f
  | none ↦ if m.partition == k then some m.offset else none
]
first_fetch k (acked m ∷ h) = first_fetch k h

-- Whether a handler of this partition and offset was called.
unfoldable pub is_acked : List Action → ℕ → ℕ → Bool
is_acked [] k o = false
is_acked (fetched m ∷ h) k o = is_acked h k o
is_acked (acked m ∷ h) k o = (m.partition == k && m.offset == o) || is_acked h k o

-- A handler exists only for a partition that was fetched from.
abbrev pub IsValid : List Action → Type 0
IsValid [] = Unit
IsValid (fetched m ∷ h) = IsValid h
IsValid (acked m ∷ h) = (is_some (first_fetch m.partition h) ≡ true) × IsValid h

module _ {E : Type 0} (reader : Message → Option E) where
  unfoldable pub step : Action → OffsetCommitter → Option OffsetCommitter
  step (fetched m) c = some (register m c)
  step (acked m) c = elim (complete reader m c) [ none ↦ none | some (c', e) ↦ some c' ]

  -- `none` is a panic.
  unfoldable pub run : List Action → Option OffsetCommitter
  unfolding step
  run [] = some new_offset_committer
  run (a ∷ h) = elim (run h) [ none ↦ none | some c ↦ step a c ]
