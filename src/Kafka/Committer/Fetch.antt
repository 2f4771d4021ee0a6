-- ===== src/Kafka/Committer/Fetch.antt =====
-- `register`, called at each fetch, keeps the history tracked.
use synapse_platform.Prelude.{
  ℕ, ◌≡◌, refl, sym, ◌∙◌, false, List, [], ◌∷◌, Option, none, some, All-mono, Option-cases,
  Bool-cases, inl, inr, arith, ◌==◌, ==_iff, if◌then◌else◌,
}
use synapse_platform.Prelude.Table.{lookup, lookup-insert}
use synapse_platform.Kafka.Committer.{Message, PartitionProgress, OffsetCommitter, register}
use synapse_platform.Kafka.Committer.Walk.{register-Inv}
use synapse_platform.Kafka.Committer.History.{Action, fetched, first_fetch, is_acked, IsValid}
use synapse_platform.Kafka.Committer.Tracks.{
  Part, Tracks, Covered-mono, is_acked-none, Part-none, Part-some, Part-of, Part-cong,
}

-- `register` pins the watermark of a new partition, and leaves the others.
register_new :
    (m : Message) (c : OffsetCommitter) (k : ℕ)
    → lookup m.partition c.parts ≡ none
    → lookup k (register m c).parts ≡ (
        if m.partition == k
        then some (record { next = m.offset; completed = [] })
        else lookup k c.parts)
unfolding register
register_new m c k e = rw (e, register) (lookup-insert m.partition k _ c.parts)

pub register_old :
    (m : Message) (c : OffsetCommitter) {p : PartitionProgress}
    → lookup m.partition c.parts ≡ some p
    → register m c ≡ c
unfolding register
register_old m c e = rw (e, register)

first_fetch_old :
    (m : Message) (h : List Action) (k : ℕ) (f : ℕ)
    → first_fetch k h ≡ some f
    → first_fetch k (fetched m ∷ h) ≡ some f
unfolding first_fetch
first_fetch_old m h k f e = rw (e, first_fetch)

first_fetch_new :
    (m : Message) (h : List Action) (k : ℕ)
    → first_fetch k h ≡ none
    → first_fetch k (fetched m ∷ h) ≡ (if m.partition == k then some m.offset else none)
unfolding first_fetch
first_fetch_new m h k e = rw (e, first_fetch)

fetch_known :
    (m : Message) (h : List Action) (k : ℕ) (p : Option PartitionProgress)
    → ((first_fetch k h ≡ none) → (m.partition == k) ≡ false)
    → Part k (is_acked h k) (first_fetch k h) p
    → Part k (is_acked h k) (first_fetch k (fetched m ∷ h)) p
fetch_known m h k p other t = elim (Option-cases (first_fetch k h)) [
  | inl e ↦ Part-of k (is_acked h k) (first_fetch_new m h k e ∙ rw (other e, e) refl) refl t
  | inr (f, e) ↦ Part-of k (is_acked h k) (first_fetch_old m h k f e ∙ sym e) refl t
]

known_partition :
    (m : Message) (h : List Action) (k : ℕ) (p : PartitionProgress)
    → first_fetch k h ≡ none
    → Part m.partition (is_acked h m.partition) (first_fetch m.partition h) (some p)
    → (m.partition == k) ≡ false
known_partition m h k p gone t = elim (Bool-cases (m.partition == k)) [
  | inl same ↦
      let (n, e, _, _) =
        Part-some m.partition (is_acked h m.partition) (first_fetch m.partition h) p t in
      let here : m.partition ≡ k = (==_iff m.partition k).0 same in cc (e, gone, here)
  | inr other ↦ other
]

fetch-Part :
    (m : Message) (h : List Action) (c : OffsetCommitter)
    → IsValid h
    → ((k : ℕ) → Part k (is_acked h k) (first_fetch k h) (lookup k c.parts))
    → (k : ℕ)
    → Part k (is_acked h k) (first_fetch k (fetched m ∷ h)) (lookup k (register m c).parts)
fetch-Part m h c v t k = elim (Option-cases (lookup m.partition c.parts)) [
  | inl e ↦ elim (Bool-cases (m.partition == k)) [
    | inl same ↦
        let here : m.partition ≡ k = (==_iff m.partition k).0 same in
        let gone : first_fetch k h ≡ none =
          Part-none k (is_acked h k) (first_fetch k h)
            (Part-of k (is_acked h k) refl (rw (← here) (sym e)) (t k)) in
        Part-of k (is_acked h k) (first_fetch_new m h k gone) (register_new m c k e) (
          rw same (
            register-Inv k m.offset (is_acked h k) (λ o. is_acked-none h k o v gone),
            is_acked-none h k m.offset v gone,
          ))
    | inr other ↦
        Part-of k (is_acked h k) refl (register_new m c k e)
          (rw other (fetch_known m h k (lookup k c.parts) (λ _. other) (t k)))
  ]
  | inr (p, e) ↦ rw (register_old m c e) (
      fetch_known m h k (lookup k c.parts)
        (λ gone.
          known_partition m h k p gone
            (Part-of m.partition (is_acked h m.partition) refl (sym e) (t m.partition)))
        (t k))
]

register-commits : (m : Message) (c : OffsetCommitter) → (register m c).commits ≡ c.commits
unfolding register
register-commits m c = ground arith

pub fetch-Tracks :
    (m : Message) (h : List Action) (c : OffsetCommitter)
    → IsValid h
    → Tracks h c
    → Tracks (fetched m ∷ h) (register m c)
fetch-Tracks m h c v t = record {
  progress = λ k.
      Part-cong k (is_acked h k) (is_acked (fetched m ∷ h) k) _ _ (λ o. unfold is_acked in refl)
        (fetch-Part m h c v t.progress k);
  sound = rw (register-commits m c) (All-mono c.commits (Covered-mono (fetched m) h) t.sound);
}
