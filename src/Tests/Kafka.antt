-- ===== src/Tests/Kafka.antt =====
-- The offset committer: two partitions, out-of-order completion, a gap, a late acknowledgement.
use synapse_platform.Prelude.{
  ℕ, ◌≤◌, ◌<◌, ◌≡◌, refl, false, true, List, [], ◌∷◌, Option, none, some, All, arith,
}
use synapse_platform.Prelude.Table.{lookup, insert}
use synapse_platform.Kafka.Committer.{
  Message, PartitionProgress, OffsetCommitter, new_offset_committer, register, complete, walk, hold,
  advance,
}
use synapse_platform.Kafka.Committer.History.{
  Action, fetched, acked, first_fetch, is_acked, step, run,
}
use synapse_platform.Kafka.Committer.Tracks.{Covered}
use synapse_platform.Kafka.Committer.Watermark.{commits-Covered, next_exact}
use synapse_platform.Kafka.Committer.Gaps.{gap_holds, below_kept}

program : Unit {0}
unfolding new_offset_committer register complete walk hold advance step run lookup insert
    first_fetch is_acked
program = tt

abbrev message : ℕ → ℕ → Message
message k o = record { partition = k; offset = o }

abbrev reader : Message → Option ℕ
reader m = none

-- Offset 6 is done before offset 5; offset 9 of partition 1 is never done.
abbrev history : List Action
history =
    acked (message 0 5)
    ∷ acked (message 0 6)
    ∷ acked (message 1 10)
    ∷ fetched (message 1 10)
    ∷ fetched (message 1 9)
    ∷ fetched (message 0 7)
    ∷ fetched (message 0 6)
    ∷ fetched (message 0 5)
    ∷ []

abbrev after : OffsetCommitter
after = record {
  parts =
      (0, record { next = 7; completed = [] })
      ∷ (1, record { next = 9; completed = (10, message 1 10) ∷ [] })
      ∷ [];
  commits = message 0 6 ∷ [];
}

history_runs : run reader history ≡ some after
unfolding program
history_runs = refl

commits-Covered_example : All (Covered history) (message 0 6 ∷ [])
unfolding program
commits-Covered_example = commits-Covered reader history {c = after} (refl, (refl, (refl, tt))) refl

next_exact_example :
    (f : ℕ) × (first_fetch 0 history ≡ some f)
    × (f ≤ 7)
    × ((o : ℕ) → f ≤ o → o < 7 → is_acked history 0 o ≡ true)
    × (is_acked history 0 7 ≡ false)
unfolding program
next_exact_example =
    next_exact reader history {c = after} 0 {p = record { next = 7; completed = [] }}
      (refl, (refl, (refl, tt))) refl refl

-- The consumer comes back to partition 1 at offset 20, and acknowledges it: the watermark is still 9.
abbrev later : List Action
later = acked (message 1 20) ∷ fetched (message 1 20) ∷ []

abbrev stuck : OffsetCommitter
stuck = record {
  parts =
      (1, record { next = 9; completed = (20, message 1 20) ∷ (10, message 1 10) ∷ [] })
      ∷ (0, record { next = 7; completed = [] })
      ∷ [];
  commits = message 0 6 ∷ [];
}

gap_holds_example : (q : PartitionProgress) × (lookup 1 stuck.parts ≡ some q) × (q.next ≡ 9)
unfolding program
gap_holds_example =
    gap_holds reader later history {c = after} {d = stuck} 1
      {p = record { next = 9; completed = (10, message 1 10) ∷ [] }}
      (refl, (refl, (refl, (refl, tt)))) refl refl refl refl

below_kept_example :
    (d : OffsetCommitter) × (q : PartitionProgress) × (complete reader (message 0 3) after
      ≡ some (d, none))
    × (d.commits ≡ after.commits)
    × (lookup 0 d.parts ≡ some q)
    × (q.next ≡ 7)
    × (lookup 3 q.completed ≡ some (message 0 3))
unfolding program
below_kept_example =
    below_kept reader (message 0 3) after (record { next = 7; completed = [] }) refl refl
      (omega arith)
