-- ===== src/Kafka/Committer/Complete.antt =====
-- `complete`, called by each handler, keeps the history tracked.
use synapse_platform.Prelude.{
  ℕ, ◌≡◌, refl, sym, ap, subst, ◌∙◌, Bool, true, false, ◌||◌, List, ◌∷◌, Option, none, some,
  All-mono, Option-cases, Bool-cases, inl, inr, arith, ◌==◌, ==_iff,
}
use synapse_platform.Prelude.Table.{lookup, insert, lookup-insert}
use synapse_platform.Kafka.Committer.{
  Message, PartitionProgress, OffsetCommitter, complete, finish, advance, hold,
}
use synapse_platform.Kafka.Committer.Walk.{Inv, Commits, is_some, advance-Inv, hold-Inv}
use synapse_platform.Kafka.Committer.History.{Action, acked, first_fetch, is_acked, step}
use synapse_platform.Kafka.Committer.Tracks.{
  Part, Tracks, Covered-mono, Part-none, Part-some, Part-of, Part-cong,
}

acked_here :
    (m : Message) (h : List Action) (k o : ℕ)
    → (m.partition == k) ≡ true
    → is_acked (acked m ∷ h) k o ≡ ((m.offset == o) || is_acked h k o)
unfolding is_acked
acked_here m h k o e = rw e refl

acked_elsewhere :
    (m : Message) (h : List Action) (k o : ℕ)
    → (m.partition == k) ≡ false
    → is_acked (acked m ∷ h) k o ≡ is_acked h k o
unfolding is_acked
acked_elsewhere m h k o e = rw e refl

Part-finish :
    (m : Message) (h : List Action) (c : OffsetCommitter) (p : PartitionProgress) (f : ℕ)
    → first_fetch m.partition h ≡ some f
    → Inv m.partition f (λ o. (m.offset == o) || is_acked h m.partition o) p
    → ((m.offset == p.next) || is_acked h m.partition p.next) ≡ false
    → Tracks h c
    → (k : ℕ)
    → Part k
        (is_acked (acked m ∷ h) k)
        (first_fetch k (acked m ∷ h))
        (lookup k (insert m.partition p c.parts))
unfolding first_fetch
Part-finish m h c p f e v gap t k = elim (Bool-cases (m.partition == k)) [
  | inl same ↦
      let here : m.partition ≡ k = (==_iff m.partition k).0 same in
      Part-cong k (λ o. (m.offset == o) || is_acked h k o) (is_acked (acked m ∷ h) k) _ _
        (λ o. sym (acked_here m h k o same))
        (Part-of k _ {g = some f} (subst (λ j. first_fetch j h ≡ some f) here e)
          (lookup-insert m.partition k p c.parts) (rw (same, ← here) (v, gap)))
  | inr other ↦
      Part-cong k (is_acked h k) (is_acked (acked m ∷ h) k) _ _
        (λ o. sym (acked_elsewhere m h k o other))
        (Part-of k _ refl (lookup-insert m.partition k p c.parts) (rw other (t.progress k)))
]

module _ {E : Type 0} (reader : Message → Option E) where
  finish-Tracks :
      (m : Message) (h : List Action) (c : OffsetCommitter) (q p : PartitionProgress)
      (commit : Option Message) (f : ℕ)
      → first_fetch m.partition h ≡ some f
      → Inv m.partition f (λ o. (m.offset == o) || is_acked h m.partition o) p
      → ((m.offset == p.next) || is_acked h m.partition p.next) ≡ false
      → Commits m.partition q p commit
      → Tracks h c
      → Tracks (acked m ∷ h) (finish reader m c (p, commit)).0
  unfolding finish
  finish-Tracks m h c q p none f e v gap b t = record {
    progress = Part-finish m h c p f e v gap t;
    sound = All-mono c.commits (Covered-mono (acked m) h) t.sound;
  }
  finish-Tracks m h c q p (some n) f e v gap b t = record {
    progress = Part-finish m h c p f e v gap t;
    sound = (
      record {
        first = f;
        fetched_first = rw b.2 (unfold first_fetch in e);
        acked_all = λ o l u. rw b.2 (
            acked_here m h m.partition o ((==_iff m.partition m.partition).1 refl)
            ∙ v.below o l (omega (arith, b.1)));
      },
      All-mono c.commits (Covered-mono (acked m) h) t.sound,
    );
  }

  pub complete_eq :
      (m : Message) (c : OffsetCommitter) (p : PartitionProgress)
      → lookup m.partition c.parts ≡ some p
      → complete reader m c ≡ some (finish reader m c (advance (hold m p)))
  unfolding complete
  complete_eq m c p e = rw (e, complete)

  step_acked :
      (m : Message) (c : OffsetCommitter) (p : PartitionProgress)
      → lookup m.partition c.parts ≡ some p
      → step reader (acked m) c ≡ some (finish reader m c (advance (hold m p))).0
  unfolding step
  step_acked m c p e = rw (complete_eq m c p e, step) refl

  -- A handler that was handed out never meets a missing partition.
  pub acked-Tracks :
      (m : Message) (h : List Action) (c : OffsetCommitter)
      → is_some (first_fetch m.partition h) ≡ true
      → Tracks h c
      → (d : OffsetCommitter) × (step reader (acked m) c ≡ some d) × Tracks (acked m ∷ h) d
  acked-Tracks m h c v t = elim (Option-cases (lookup m.partition c.parts)) [
    | inl e ↦
        let gone =
          Part-none m.partition (is_acked h m.partition) (first_fetch m.partition h)
            (Part-of m.partition (is_acked h m.partition) refl (sym e) (t.progress m.partition)) in
        cc (v, ap {B = Bool} is_some gone)
    | inr (p, e) ↦
        let (f, found, inv, _) =
          Part-some m.partition (is_acked h m.partition) (first_fetch m.partition h) p
            (Part-of m.partition (is_acked h m.partition) refl (sym e) (t.progress m.partition)) in
        let (w, gap, b) =
          advance-Inv m.partition f _ (hold m p)
            (hold-Inv m.partition f (is_acked h m.partition) m p refl inv) in
        (
          (finish reader m c (advance (hold m p))).0,
          step_acked m c p e,
          finish-Tracks m h c (hold m p) (advance (hold m p)).0 (advance (hold m p)).1 f found w gap
              b t,
        )
  ]
