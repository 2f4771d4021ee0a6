-- ===== src/Ingestor/Loop/Batch/Plan.antt =====
-- What the batcher flushes: every item that it receives, once and in order, in batches of at most
-- `BatchSize`.
use mathlib.Core.List.{append-nil, append_assoc}
use synapse_platform.Prelude.{
  ℕ, ◌≤◌, ◌<◌, ◌≡◌, refl, ap, sym, ◌∙◌, Bool, true, false, Bool-cases, inl, inr, List, [], ◌∷◌,
  ◌++◌, All, leb, length, length-append, arith,
}
use synapse_platform.Ingestor.Loop.{Context, caller, background, Environment, World}
use synapse_platform.Ingestor.Loop.Batch.{
  EventWithDelivery, Signal, item, closed, ticked, done, Batcher, flush_batch_with_deliveries,
  receive_item, flush, drain_and_flush_with_deliveries, save_batch_with_deliveries,
}

abbrev pub Flushes : Type 0 → Type 0
Flushes Event = List (Context × List (EventWithDelivery Event))

module _ {Event : Type 0} where
  -- The items that a drain receives before it returns.
  abbrev pub drained : List (Signal Event) → List (EventWithDelivery Event)
  drained [] = []
  drained (item i ∷ rest) = i ∷ drained rest
  drained (ticked ∷ rest) = drained rest
  drained (closed ∷ rest) = []
  drained (done ∷ rest) = []

  -- The items that the batcher receives before it returns.
  abbrev pub received : List (Signal Event) → List (EventWithDelivery Event)
  received [] = []
  received (item i ∷ rest) = i ∷ received rest
  received (ticked ∷ rest) = received rest
  received (closed ∷ rest) = []
  received (done ∷ rest) = drained rest

  abbrev pub items_of : Flushes Event → List (EventWithDelivery Event)
  items_of [] = []
  items_of ((ctx, batch) ∷ rest) = batch ++ items_of rest

  items_of-append : (fs gs : Flushes Event) → items_of (fs ++ gs) ≡ items_of fs ++ items_of gs
  items_of-append [] gs = refl
  items_of-append ((ctx, batch) ∷ fs) gs =
      ap (◌++◌ batch) (items_of-append fs gs) ∙ sym (append_assoc batch (items_of fs) (items_of gs))

All-join : {A : Type 0} (P : A → Type 0) (xs ys : List A) → All P xs → All P ys → All P (xs ++ ys)
All-join P [] ys h k = k
All-join P (x ∷ xs) ys h k = (h.0, All-join P xs ys h.1 k)

module _ {Event : Type 0} (env : Environment Event) where
  abbrev pub replay : Flushes Event → World Event → World Event
  replay [] w = w
  replay ((ctx, batch) ∷ rest) w = replay rest (flush_batch_with_deliveries env ctx batch w)

  -- From batcher `s`, having received `is`, to the result `r`.
  pub record Flushed (size : ℕ) (is : List (EventWithDelivery Event)) (s : Batcher Event)
      (r : Bool × Batcher Event) : Type 0 where
    pub flushes : Flushes Event
    pub world : r.1.world ≡ replay flushes s.world
    pub items : items_of flushes ++ r.1.batch ≡ s.batch ++ is
    pub bounded : All (λ f. length f.1 ≤ size) flushes
    pub room : length r.1.batch < size
    pub returned : r.0 ≡ true → r.1.batch ≡ []

  wait_Flushed :
      (size : ℕ) (s : Batcher Event) → length s.batch < size → Flushed size [] s (false, s)
  wait_Flushed size s h = record {
    flushes = [];
    world = refl;
    items = sym (append-nil s.batch);
    bounded = tt;
    room = h;
    returned = λ e. cc;
  }

  flush-Flushed :
      (size : ℕ) (ctx : Context) (ended : Bool) (s : Batcher Event)
      → length s.batch < size
      → Flushed size [] s (ended, flush env ctx s)
  unfolding flush
  flush-Flushed size ctx ended s h = record {
    flushes = (ctx, s.batch) ∷ [];
    world = refl;
    items = append-nil (s.batch ++ []);
    bounded = (omega arith, tt);
    room = omega arith;
    returned = λ e. refl;
  }

  receive_Flushed :
      (size : ℕ) (ctx : Context) (i : EventWithDelivery Event) (s : Batcher Event)
      → length s.batch < size
      → Flushed size (i ∷ []) s (false, receive_item env size ctx i s)
  unfolding receive_item
  receive_Flushed size ctx i s h = elim (Bool-cases (leb size (length (s.batch ++ i ∷ [])))) [
    | inl p ↦ rw p (record {
      flushes = (ctx, s.batch ++ i ∷ []) ∷ [];
      world = refl;
      items = append-nil _ ∙ append-nil _;
      bounded = (omega (arith, length-append s.batch (i ∷ [])), tt);
      room = omega arith;
      returned = λ e. cc;
    })
    | inr p ↦ rw p (record {
      flushes = [];
      world = refl;
      items = refl;
      bounded = tt;
      room = ground arith;
      returned = λ e. cc;
    })
  ]

  replay-append :
      (fs gs : Flushes Event) (w : World Event) → replay (fs ++ gs) w ≡ replay gs (replay fs w)
  replay-append [] gs w = refl
  replay-append ((ctx, batch) ∷ fs) gs w = replay-append fs gs _

  Flushed-trans :
      (size : ℕ) (is js : List (EventWithDelivery Event)) (s t : Batcher Event)
      (r : Bool × Batcher Event)
      → Flushed size is s (false, t)
      → Flushed size js t r
      → Flushed size (is ++ js) s r
  Flushed-trans size is js s t r a b = record {
    flushes = a.flushes ++ b.flushes;
    world =
        b.world ∙ ap (replay b.flushes) a.world ∙ sym (replay-append a.flushes b.flushes s.world);
    items =
        simp (items_of-append, append_assoc, b.items)
          (sym (append_assoc (items_of a.flushes) t.batch js)
            ∙ ap (λ l. l ++ js) a.items
            ∙ append_assoc s.batch is js);
    bounded = All-join _ a.flushes b.flushes a.bounded b.bounded;
    room = b.room;
    returned = b.returned;
  }

  pub drain_Flushed :
      (size : ℕ) (signals : List (Signal Event)) (s : Batcher Event)
      → length s.batch < size
      → Flushed size (drained signals) s (drain_and_flush_with_deliveries env size signals s)
  unfolding drain_and_flush_with_deliveries
  drain_Flushed size [] s h = wait_Flushed size s h
  drain_Flushed size (item i ∷ rest) s h =
      let first = receive_Flushed size (background 10) i s h in
      Flushed-trans size (i ∷ []) (drained rest) s _ _ first (drain_Flushed size rest _ first.room)
  drain_Flushed size (closed ∷ rest) s h = flush-Flushed size (background 10) true s h
  drain_Flushed size (done ∷ rest) s h = flush-Flushed size (background 5) true s h
  drain_Flushed size (ticked ∷ rest) s h = drain_Flushed size rest s h

  -- The loop that saves batches, on any signals, from a batch that has room: what it does to the
  -- world is a row of flushes, whose batches have at most `size` items each; one after the other
  -- they hold the items that it started with and those that it received before it returned, each
  -- once and in order, and the rest is in the batch that is left, which is empty if it returned and
  -- has room if not.
  pub save_batch_Flushed :
      (size : ℕ) (signals : List (Signal Event)) (s : Batcher Event)
      → length s.batch < size
      → Flushed size (received signals) s (save_batch_with_deliveries env size signals s)
  unfolding save_batch_with_deliveries
  save_batch_Flushed size [] s h = wait_Flushed size s h
  save_batch_Flushed size (item i ∷ rest) s h =
      let first = receive_Flushed size caller i s h in
      Flushed-trans size (i ∷ []) (received rest) s _ _ first
        (save_batch_Flushed size rest _ first.room)
  save_batch_Flushed size (closed ∷ rest) s h = flush-Flushed size caller true s h
  save_batch_Flushed size (done ∷ rest) s h = drain_Flushed size rest s h
  save_batch_Flushed size (ticked ∷ rest) s h =
      let first = flush-Flushed size caller false s h in
      Flushed-trans size [] (received rest) s _ _ first (save_batch_Flushed size rest _ first.room)
