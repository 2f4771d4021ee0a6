-- ===== src/Kafka/Committer/Walk.antt =====
-- The loop of `complete` on one partition, against the set of offsets that were acknowledged.
use synapse_platform.Prelude.{
  ℕ, zero, suc, ◌+◌, ◌≤◌, ◌<◌, ◌≡◌, [], refl, sym, Bool, true, false, ◌||◌, Option, none, some,
  Option-cases, inl, inr, length, arith, ◌==◌,
}
use synapse_platform.Prelude.Table.{lookup, delete, lookup-delete, lookup-insert, length-delete-lt}
use synapse_platform.Kafka.Committer.{Message, PartitionProgress, walk, advance, hold}

abbrev pub is_some {ℓ} : {A : Type ℓ} → Option A → Bool
is_some none = false
is_some (some a) = true

-- `acks o` says whether offset `o` of partition `k` was acknowledged; `first` was fetched first.
pub record Inv (k first : ℕ) (acks : ℕ → Bool) (p : PartitionProgress) : Type 0 where
  pub started : first ≤ p.next
  pub below : (o : ℕ) → first ≤ o → o < p.next → acks o ≡ true
  pub held : (o : ℕ) → p.next ≤ o → is_some (lookup o p.completed) ≡ acks o
  pub keyed :
      (o : ℕ) (m : Message) → lookup o p.completed ≡ some m → (m.offset ≡ o) × (m.partition ≡ k)

-- What the loop says of the message it commits.
abbrev pub Commits : ℕ → PartitionProgress → PartitionProgress → Option Message → Type 0
Commits k p q none = p.next ≡ q.next
Commits k p q (some m) = (p.next < q.next) × (m.offset + 1 ≡ q.next) × (m.partition ≡ k)

module _ (k first : ℕ) (acks : ℕ → Bool) where
  next-Inv :
      (p : PartitionProgress) (m : Message)
      → Inv k first acks p
      → lookup p.next p.completed ≡ some m
      → Inv k first acks (record { next = p.next + 1; completed = delete p.next p.completed })
  next-Inv p m v e = record {
    started = omega (arith, v.started);
    below = λ o h l. ground (arith, v.below o, v.held o);
    held = λ o h. rw (lookup-delete p.next o p.completed) (ground (arith, v.held o));
    keyed = λ o n h. ground (arith, v.keyed o n, lookup-delete p.next o p.completed);
  }

  pub walk-Inv :
      (fuel : ℕ) (p : PartitionProgress) (commit : Option Message)
      → length p.completed < fuel
      → Inv k first acks p
      → Inv k first acks (walk fuel p commit).0 × (acks (walk fuel p commit).0.next ≡ false)
  unfolding walk
  walk-Inv zero p commit h v = absurd (omega arith)
  walk-Inv (suc fuel) p commit h v = elim (Option-cases (lookup p.next p.completed)) [
    | inl e ↦ rw (e, walk) (v, ground (arith, v.held p.next))
    | inr (m, e) ↦
        rw (e, walk)
          (walk-Inv fuel _ (some m) (omega (arith, length-delete-lt p.next p.completed m e))
            (next-Inv p m v e))
  ]

  Commits-le :
      (p q : PartitionProgress) (commit : Option Message) → Commits k p q commit → p.next ≤ q.next
  Commits-le p q none c = omega arith
  Commits-le p q (some m) c = omega arith

  pub walk-Commits :
      (fuel : ℕ) (p q : PartitionProgress) (commit : Option Message)
      → Inv k first acks q
      → Commits k p q commit
      → Commits k p (walk fuel q commit).0 (walk fuel q commit).1
  unfolding walk
  walk-Commits zero p q commit v c = c
  walk-Commits (suc fuel) p q commit v c = elim (Option-cases (lookup q.next q.completed)) [
    | inl e ↦ rw (e, walk) c
    | inr (m, e) ↦
        rw (e, walk)
          (walk-Commits fuel p _ (some m) (next-Inv q m v e)
            (omega (arith, Commits-le p q commit c, v.keyed q.next m e)))
  ]

  -- The loop stops at the first offset that was not acknowledged, and commits the one before it.
  pub advance-Inv :
      (p : PartitionProgress)
      → Inv k first acks p
      → Inv k first acks (advance p).0
        × (acks (advance p).0.next ≡ false)
        × Commits k p (advance p).0 (advance p).1
  unfolding advance
  advance-Inv p v =
      let (w, gap) = walk-Inv (suc (length p.completed)) p none (omega arith) v in
      (w, gap, walk-Commits (suc (length p.completed)) p p none v refl)

-- Holding a message adds its offset to the acknowledged ones.
pub hold-Inv :
    (k first : ℕ) (acks : ℕ → Bool) (msg : Message) (p : PartitionProgress)
    → msg.partition ≡ k
    → Inv k first acks p
    → Inv k first (λ o. (msg.offset == o) || acks o) (hold msg p)
unfolding hold
hold-Inv k first acks msg p e v = record {
  started = v.started;
  below = λ o h l. ground (arith, v.below o);
  held = λ o h. rw (lookup-insert msg.offset o msg p.completed) (ground (arith, v.held o));
  keyed = λ o m h. ground (arith, v.keyed o m, lookup-insert msg.offset o msg p.completed);
}

-- A partition that was just registered.
pub register-Inv :
    (k first : ℕ) (acks : ℕ → Bool)
    → ((o : ℕ) → acks o ≡ false)
    → Inv k first acks (record { next = first; completed = [] })
unfolding lookup
register-Inv k first acks h = record {
  started = omega arith;
  below = λ o l m. absurd (omega arith);
  held = λ o l. sym (h o);
  keyed = λ o m e. absurd (ground arith);
}
