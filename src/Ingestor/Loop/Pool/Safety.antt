-- ===== src/Ingestor/Loop/Pool/Safety.antt =====
-- Every interleaving of the goroutines keeps the trace safe.
use synapse_platform.Prelude.{ℕ, subst, List, [], ◌∷◌, ◌++◌, All}
use synapse_platform.Ingestor.Loop.{Effect, Environment, World, Config}
use synapse_platform.Ingestor.Loop.Batch.{EventWithDelivery, Batcher}
use synapse_platform.Ingestor.Loop.Batch.Safety.{
  IsMade, AllMade-Extends, All-append, BatcherSafe, flush-Safe, receive_item-Safe,
  receive_item-Extends, flush-Extends,
}
use synapse_platform.Ingestor.Loop.Justified.{AckSafe, Extends, Sound}
use synapse_platform.Ingestor.Loop.Pool.{
  Turn, stop, again, send, process_turn, transform_turn, handle_batch_turn, Pool, turn_list,
  batcher, with_batcher, Step, produce, send_delivery, drop_delivery, take_delivery, work,
  handle_batch, send_event, drop_event, receive, flush_batch, Reach, here, next, initial,
}
use synapse_platform.Ingestor.Loop.Pool.Turns.{
  TurnSafe, process_turn-Sound, transform_turn-TurnSafe, handle_batch_turn-TurnSafe,
}

module _ {Event : Type 0} where
  -- Every item on its way to the batch was made from its delivery, and the trace is safe.
  pub record PoolSafe (p : Pool Event) : Type 0 where
    pub safe : AckSafe p.world.trace
    pub made : All (IsMade p.world.trace) p.made
    pub events : All (IsMade p.world.trace) p.events
    pub batch : All (IsMade p.world.trace) p.batch

  All-remove :
      (P : EventWithDelivery Event → Type 0) (before after : List (EventWithDelivery Event))
      (i : EventWithDelivery Event)
      → All P (before ++ i ∷ after)
      → P i × All P (before ++ after)
  All-remove P [] after i h = h
  All-remove P (j ∷ before) after i h =
      let (mine, rest) = All-remove P before after i h.1 in (mine, (h.0, rest))

  turn_list_made :
      (t : List (Effect Event)) (r : Turn (EventWithDelivery Event))
      (l : List (EventWithDelivery Event))
      → All (IsMade t) (turn_list r [])
      → All (IsMade t) l
      → All (IsMade t) (turn_list r l)
  turn_list_made t stop l h k = k
  turn_list_made t again l h k = k
  turn_list_made t (send i) l h k = (h.0, k)

  -- A step that only advances the world, by a sound one.
  advance-PoolSafe :
      (p : Pool Event) (w : World Event)
      → Sound p.world w
      → PoolSafe p
      → PoolSafe (record p { world = w })
  advance-PoolSafe p w s h = record {
    safe = s.safe h.safe;
    made = AllMade-Extends s.extends p.made h.made;
    events = AllMade-Extends s.extends p.events h.events;
    batch = AllMade-Extends s.extends p.batch h.batch;
  }

  turn-PoolSafe :
      (p : Pool Event) (r : Turn (EventWithDelivery Event) × World Event)
      (l : List (EventWithDelivery Event))
      → TurnSafe p.world r
      → PoolSafe p
      → All (IsMade r.1.trace) l
      → PoolSafe (record p { world = r.1; made = turn_list r.0 l })
  turn-PoolSafe p r l t h k =
      let a = advance-PoolSafe p r.1 t.0 h in
      record {
        safe = a.safe;
        events = a.events;
        batch = a.batch;
        made = turn_list_made r.1.trace r.0 l t.1 k;
      }

  batcher-PoolSafe :
      (p : Pool Event) (s : Batcher Event)
      → BatcherSafe s
      → Extends p.world.trace s.world.trace
      → All (IsMade p.world.trace) p.made
      → All (IsMade p.world.trace) p.events
      → PoolSafe (with_batcher p s)
  batcher-PoolSafe p s b x m e = record {
    safe = b.safe;
    made = AllMade-Extends x p.made m;
    events = AllMade-Extends x p.events e;
    batch = b.made;
  }

module _ {Event : Type 0} (env : Environment Event) (cfg : Config) (event_capacity : ℕ) where
  Step-PoolSafe : {p q : Pool Event} → Step env cfg event_capacity p q → PoolSafe p → PoolSafe q
  Step-PoolSafe (produce p _) h =
      let a = advance-PoolSafe p (process_turn env p.world).1 (process_turn-Sound env p.world) h in
      record { safe = a.safe; made = a.made; events = a.events; batch = a.batch }
  Step-PoolSafe (send_delivery p d _ _) h = record {
    safe = h.safe;
    made = h.made;
    events = h.events;
    batch = h.batch;
  }
  Step-PoolSafe (drop_delivery p _) h = record {
    safe = h.safe;
    made = h.made;
    events = h.events;
    batch = h.batch;
  }
  Step-PoolSafe (take_delivery p d rest _ _) h = record {
    safe = h.safe;
    made = h.made;
    events = h.events;
    batch = h.batch;
  }
  Step-PoolSafe (work p before after d _) h =
      let t = transform_turn-TurnSafe env d p.world in
      let a =
        turn-PoolSafe p (transform_turn env d p.world) p.made t h
          (AllMade-Extends t.0.extends p.made h.made) in
      record { safe = a.safe; made = a.made; events = a.events; batch = a.batch }
  Step-PoolSafe (handle_batch p _) h =
      turn-PoolSafe p (handle_batch_turn env p.world) [] (handle_batch_turn-TurnSafe env p.world) h
        tt
  Step-PoolSafe (send_event p before after i e _) h =
      let (made, rest) =
        All-remove _ before after i (subst (All (IsMade p.world.trace)) e h.made) in
      record {
        safe = h.safe;
        made = rest;
        events = All-append _ p.events i h.events made;
        batch = h.batch;
      }
  Step-PoolSafe (drop_event p before after i e _) h =
      let (made, rest) =
        All-remove _ before after i (subst (All (IsMade p.world.trace)) e h.made) in
      record { safe = h.safe; made = rest; events = h.events; batch = h.batch }
  Step-PoolSafe (receive p ctx i rest e) h =
      let items = subst (All (IsMade p.world.trace)) e h.events in
      let b : BatcherSafe (batcher p) = record { made = h.batch; safe = h.safe } in
      batcher-PoolSafe (record p { events = rest }) _
        (receive_item-Safe env cfg.batch_size ctx i (batcher p) items.0 b)
        (receive_item-Extends env cfg.batch_size ctx i (batcher p) items.0 b) h.made items.1
  Step-PoolSafe (flush_batch p ctx) h =
      let b : BatcherSafe (batcher p) = record { made = h.batch; safe = h.safe } in
      batcher-PoolSafe p _ (flush-Safe env ctx (batcher p) b) (flush-Extends env ctx (batcher p) b)
        h.made h.events

  Reach-PoolSafe : {p q : Pool Event} → PoolSafe p → Reach env cfg event_capacity p q → PoolSafe q
  Reach-PoolSafe h here = h
  Reach-PoolSafe h (next r s) = Step-PoolSafe s (Reach-PoolSafe h r)

  -- From a start with empty channels, over every interleaving of the producer, any number of
  -- workers and the batcher, a delivery is acknowledged only after the event made from its message
  -- was stored without an error, alone or in a batch, or a record with the message itself was put
  -- into failure storage without an error. For a delivery without a message, whose payload could not
  -- be decoded, a record with its metadata was put there, and nothing of the payload.
  pub pool-AckSafe :
      (w : World Event) {q : Pool Event}
      → AckSafe w.trace
      → Reach env cfg event_capacity (initial w) q
      → AckSafe q.world.trace
  pool-AckSafe w h r =
      (Reach-PoolSafe (record { safe = h; made = tt; events = tt; batch = tt }) r).safe
