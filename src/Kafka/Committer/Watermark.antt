-- ===== src/Kafka/Committer/Watermark.antt =====
-- The committed position of each partition over every history of fetches and acknowledgements.
use synapse_platform.Prelude.{
  ℕ, ◌≤◌, ◌<◌, ◌≡◌, refl, sym, subst, true, false, List, [], ◌∷◌, Option, some, All,
}
use synapse_platform.Prelude.Table.{lookup}
use synapse_platform.Kafka.Committer.{
  Message, PartitionProgress, OffsetCommitter, new_offset_committer, register,
}
use synapse_platform.Kafka.Committer.History.{
  Action, fetched, acked, first_fetch, is_acked, IsValid, step, run,
}
use synapse_platform.Kafka.Committer.Tracks.{Covered, Tracks, new-Tracks, Part-some, Part-of}
use synapse_platform.Kafka.Committer.Fetch.{fetch-Tracks}
use synapse_platform.Kafka.Committer.Complete.{acked-Tracks}

module _ {E : Type 0} (reader : Message → Option E) where
  -- Over every history of fetches and acknowledgements the code does not panic and is tracked.
  pub run-Tracks :
      (h : List Action) → IsValid h → (c : OffsetCommitter) × (run reader h ≡ some c) × Tracks h c
  unfolding run
  run-Tracks [] v = (new_offset_committer, refl, new-Tracks)
  run-Tracks (fetched m ∷ h) v =
      let (c, e, t) = run-Tracks h v in
      (register m c, rw (e, run, step) refl, fetch-Tracks m h c v t)
  run-Tracks (acked m ∷ h) v =
      let (c, e, t) = run-Tracks h v.1 in
      let (d, s, u) = acked-Tracks reader m h c v.0 t in (d, rw (e, run) s, u)

  pub run-Tracks-eq :
      (h : List Action) {c : OffsetCommitter} → IsValid h → run reader h ≡ some c → Tracks h c
  run-Tracks-eq h {c} v e =
      let (d, f, t) = run-Tracks h v in let same : d ≡ c = cc (f, e) in subst (Tracks h) same t

  -- After any history in which every handler belongs to a partition that was fetched from, for
  -- every message whose offset was committed, all the offsets of its partition from the first one
  -- fetched up to the committed one were acknowledged: no commit passes over a message that was not.
  pub commits-Covered :
      (h : List Action) {c : OffsetCommitter}
      → IsValid h
      → run reader h ≡ some c
      → All (Covered h) c.commits
  commits-Covered h v e = (run-Tracks-eq h v e).sound

  -- After such a history the watermark of a partition is the least offset, from the first one
  -- fetched on, that was not acknowledged: a commit is never held back longer than the gap lasts.
  pub next_exact :
      (h : List Action) {c : OffsetCommitter} (k : ℕ) {p : PartitionProgress}
      → IsValid h
      → run reader h ≡ some c
      → lookup k c.parts ≡ some p
      → (f : ℕ) × (first_fetch k h ≡ some f)
        × (f ≤ p.next)
        × ((o : ℕ) → f ≤ o → o < p.next → is_acked h k o ≡ true)
        × (is_acked h k p.next ≡ false)
  next_exact h {c} k {p} v e l =
      let (f, found, inv, gap) =
        Part-some k (is_acked h k) (first_fetch k h) p
          (Part-of k (is_acked h k) refl (sym l) ((run-Tracks-eq h v e).progress k)) in
      (f, found, inv.started, inv.below, gap)
