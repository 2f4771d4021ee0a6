-- ===== src/Kafka/Committer/Gaps.antt =====
-- A gap in the acknowledged offsets of a partition, and what falls below the watermark.
use synapse_platform.Prelude.{
  ℕ, ◌<◌, ◌≡◌, refl, sym, subst, ◌∙◌, ap, false, ◌||◌, List, [], ◌∷◌, ◌++◌, Option, none, some,
  Option-cases, inl, inr, arith,
}
use synapse_platform.Prelude.Table.{lookup, insert, lookup-insert, lookup-insert_self}
use synapse_platform.Kafka.Committer.{
  Message, PartitionProgress, OffsetCommitter, complete, finish, walk, advance, hold,
}
use synapse_platform.Kafka.Committer.History.{
  Action, fetched, acked, first_fetch, is_acked, IsValid, run,
}
use synapse_platform.Kafka.Committer.Tracks.{Part, Part-of}
use synapse_platform.Kafka.Committer.Complete.{complete_eq}
use synapse_platform.Kafka.Committer.Watermark.{run-Tracks-eq, next_exact}

first_fetch-append :
    (h' h : List Action) (k f : ℕ) → first_fetch k h ≡ some f → first_fetch k (h' ++ h) ≡ some f
unfolding first_fetch
first_fetch-append [] h k f e = e
first_fetch-append (fetched m ∷ h') h k f e = rw (first_fetch-append h' h k f e, first_fetch)
first_fetch-append (acked m ∷ h') h k f e = first_fetch-append h' h k f e

is_acked-append :
    (h' h : List Action) (k o : ℕ) → is_acked (h' ++ h) k o ≡ (is_acked h' k o || is_acked h k o)
unfolding is_acked
is_acked-append [] h k o = refl
is_acked-append (fetched m ∷ h') h k o = is_acked-append h' h k o
is_acked-append (acked m ∷ h') h k o = ground (arith, is_acked-append h' h k o)

IsValid-append : (h' h : List Action) → IsValid (h' ++ h) → IsValid h
IsValid-append [] h v = v
IsValid-append (fetched m ∷ h') h v = IsValid-append h' h v
IsValid-append (acked m ∷ h') h v = IsValid-append h' h v.1

module _ {E : Type 0} (reader : Message → Option E) where
  -- Once a partition is registered, its watermark stays where it is for as long as the offset that
  -- it stands at is not acknowledged, whatever else is fetched and acknowledged: also when the
  -- consumer comes back to the partition and fetches from a later offset on.
  pub gap_holds :
      (h' h : List Action) {c d : OffsetCommitter} (k : ℕ) {p : PartitionProgress}
      → IsValid (h' ++ h)
      → run reader h ≡ some c
      → run reader (h' ++ h) ≡ some d
      → lookup k c.parts ≡ some p
      → is_acked h' k p.next ≡ false
      → (q : PartitionProgress) × (lookup k d.parts ≡ some q) × (q.next ≡ p.next)
  gap_holds h' h {c} {d} k {p} v e e' l g =
      let (f, found, start, below, gap) = next_exact reader h k (IsValid-append h' h v) e l in
      elim (Option-cases (lookup k d.parts)) [
        | inl missing ↦ absurd (
            subst (λ (o : Option ℕ). Part k (is_acked (h' ++ h) k) o none)
              (first_fetch-append h' h k f found)
              (Part-of k (is_acked (h' ++ h) k) refl (sym missing)
                ((run-Tracks-eq reader (h' ++ h) v e').progress k)))
        | inr (q, there) ↦
            let (f', found', start', below', gap') = next_exact reader (h' ++ h) k v e' there in
            let same : f ≡ f' = cc (first_fetch-append h' h k f found, found') in
            (
              q,
              there,
              ground (
                arith,
                below q.next,
                below' p.next,
                is_acked-append h' h k q.next,
                is_acked-append h' h k p.next,
              ),
            )
      ]

  -- An acknowledgement below the watermark commits nothing, and its message stays in `completed`.
  pub below_kept :
      (msg : Message) (c : OffsetCommitter) (p : PartitionProgress)
      → lookup msg.partition c.parts ≡ some p
      → lookup p.next p.completed ≡ none
      → msg.offset < p.next
      → (d : OffsetCommitter) × (q : PartitionProgress) × (complete reader msg c ≡ some (d, none))
        × (d.commits ≡ c.commits)
        × (lookup msg.partition d.parts ≡ some q)
        × (q.next ≡ p.next)
        × (lookup msg.offset q.completed ≡ some msg)
  unfolding finish
  below_kept msg c p e gap low =
      let still : lookup p.next (insert msg.offset msg p.completed) ≡ none =
        lookup-insert msg.offset p.next msg p.completed ∙ ground arith in
      let stops : advance (hold msg p) ≡ (hold msg p, none) =
        unfold advance hold walk in rw (still, walk) refl in
      let d : OffsetCommitter = record c { parts = insert msg.partition (hold msg p) c.parts } in
      (
        d,
        hold msg p,
        complete_eq reader msg c p e ∙ ap (λ x. some (finish reader msg c x)) stops,
        refl,
        lookup-insert_self msg.partition (hold msg p) c.parts,
        unfold hold in refl,
        unfold hold in lookup-insert_self msg.offset msg p.completed,
      )
