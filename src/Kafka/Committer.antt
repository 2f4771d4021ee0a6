-- ===== src/Kafka/Committer.antt =====
-- internal/kafka/ack.go: `OffsetCommitter`. A method that locks the mutex is one step on the state.
pub mod Walk
pub mod History
pub mod Tracks
pub mod Fetch
pub mod Complete
pub mod Watermark
pub mod Gaps
use synapse_platform.Prelude.{
  ℕ, zero, suc, ◌+◌, Bool, true, false, List, [], ◌∷◌, Option, none, some, length,
}
use synapse_platform.Prelude.Table.{Table, lookup, insert, delete}

-- The fields of `kafka.Message` that the committer reads.
pub record Message : Type 0 where
  pub partition : ℕ
  pub offset : ℕ

pub record PartitionProgress : Type 0 where
  pub next : ℕ
  pub completed : Table Message

-- `commits` records the messages given to `reader.CommitMessages`, newest first.
pub record OffsetCommitter : Type 0 where
  pub parts : Table PartitionProgress
  pub commits : List Message

unfoldable pub new_offset_committer : OffsetCommitter
new_offset_committer = record { parts = []; commits = [] }

unfoldable pub register : Message → OffsetCommitter → OffsetCommitter
register msg c = elim (lookup msg.partition c.parts) [
  | some p ↦ c
  | none ↦ record c {
    parts = insert msg.partition (record { next = msg.offset; completed = [] }) c.parts;
  }
]

-- The `for` loop of `complete`: the progress, and the last message taken off the run.
unfoldable pub walk : ℕ → PartitionProgress → Option Message → PartitionProgress × Option Message
walk zero p commit = (p, commit)
walk (suc fuel) p commit = elim (lookup p.next p.completed) [
  | none ↦ (p, commit)
  | some m ↦
      walk fuel (record { next = p.next + 1; completed = delete p.next p.completed }) (some m)
]

-- One round for each held message, and the round that finds the gap.
unfoldable pub advance : PartitionProgress → PartitionProgress × Option Message
unfolding walk
advance p = walk (suc (length p.completed)) p none

-- `p.completed[msg.Offset] = msg`
unfoldable pub hold : Message → PartitionProgress → PartitionProgress
hold msg p = record p { completed = insert msg.offset msg p.completed }

module _ {E : Type 0} (reader : Message → Option E) where
  pub finish :
      Message → OffsetCommitter → PartitionProgress × Option Message → OffsetCommitter × Option E
  finish msg c (p, none) = (record c { parts = insert msg.partition p c.parts }, none)
  finish msg c (p, some m) =
      (record { parts = insert msg.partition p c.parts; commits = m ∷ c.commits }, reader m)

  -- `none` is the nil dereference at a partition that was never registered.
  unfoldable pub complete : Message → OffsetCommitter → Option (OffsetCommitter × Option E)
  unfolding finish hold advance
  complete msg c = elim (lookup msg.partition c.parts) [
    | none ↦ none
    | some p ↦ some (finish msg c (advance (hold msg p)))
  ]
