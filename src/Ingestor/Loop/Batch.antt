-- ===== src/Ingestor/Loop/Batch.antt =====
-- ingestor.go: a batch collected from a channel of events, flushed when it is full, at each tick,
-- when the channel is closed, and when the context is done.
pub mod Safety
pub mod Plan
use synapse_platform.Prelude.{
  ℕ, zero, suc, ◌+◌, Bool, true, false, String, Option, none, some, List, [], ◌∷◌, ◌++◌, map, leb,
  if◌then◌else◌, length,
}
use synapse_platform.Ingestor.Errors.{GoError, classify, class_terminal, class_transient}
use synapse_platform.Ingestor.Message.{Delivery}
use synapse_platform.Ingestor.Loop.{
  Context, caller, background, Environment, World, stored, log, context_error, loop_check,
  fail_terminal_and_ack, ack, retry_transient, max_store_attempts,
}
use synapse_platform.Ingestor.Loop.Single.{store_data}

pub record EventWithDelivery (Event : Type 0) : Type 0 where
  pub event : Event
  pub delivery : Option Delivery

-- What the `select` of a loop receives; `item` and `closed` come from the channel.
pub data Signal (Event : Type 0) : Type 0 where
  item : EventWithDelivery Event → Signal Event
  closed ticked done : Signal Event

pub record Batcher (Event : Type 0) : Type 0 where
  pub batch : List (EventWithDelivery Event)
  pub world : World Event

abbrev pub events_of : {Event : Type 0} → List (EventWithDelivery Event) → List Event
events_of = map λ i. i.event

module _ {Event : Type 0} (env : Environment Event) where
  -- The operation under `retryTransient`: a batch of one goes to `StoreData`.
  unfoldable pub store_events : List Event → World Event → Option GoError × World Event
  unfolding log
  store_events (ev ∷ []) w = store_data env ev w
  store_events evs w = let r = env.store_batch w.clock evs in (r, log (stored evs r) w)

  unfoldable pub fail_all :
      Context → GoError → List (EventWithDelivery Event) → World Event → World Event
  fail_all ctx e [] w = w
  fail_all ctx e (i ∷ is) w =
      fail_all ctx e is
        (fail_terminal_and_ack env ctx i.delivery "store_batch" e max_store_attempts w)

  unfoldable pub ack_all : Context → List (EventWithDelivery Event) → World Event → World Event
  ack_all ctx [] w = w
  ack_all ctx (i ∷ is) w = ack_all ctx is (ack env ctx i.delivery "store_batch" w)

  pub finish_batch :
      Context
      → List (EventWithDelivery Event)
      → Option GoError × World Event
      → Option GoError × World Event
  unfolding fail_all ack_all
  finish_batch ctx batch (none, w) = (none, ack_all ctx batch w)
  finish_batch ctx batch (some e, w) = elim (context_error env loop_check ctx w) [
    | some cancelled ↦ (some cancelled, w)
    | none ↦ elim (classify (some e)) [
      | class_terminal ↦ (some e, fail_all ctx e batch w)
      | class_transient ↦ (some e, w)
    ]
  ]

  unfoldable pub store_batch_with_deliveries :
      Context → List (EventWithDelivery Event) → World Event → Option GoError × World Event
  unfolding finish_batch
  store_batch_with_deliveries ctx [] w = (none, w)
  store_batch_with_deliveries ctx (i ∷ is) w =
      finish_batch ctx (i ∷ is) (retry_transient env ctx (store_events (events_of (i ∷ is))) w)

  unfoldable pub flush_batch_with_deliveries :
      Context → List (EventWithDelivery Event) → World Event → World Event
  flush_batch_with_deliveries ctx batch w = (store_batch_with_deliveries ctx batch w).1

  -- `batch = append(batch, item)`, and a flush once the batch is full.
  unfoldable pub receive_item :
      ℕ → Context → EventWithDelivery Event → Batcher Event → Batcher Event
  receive_item size ctx i s =
      let grown = s.batch ++ i ∷ [] in
      if leb size (length grown)
      then record { batch = []; world = flush_batch_with_deliveries ctx grown s.world }
      else record s { batch = grown }

  unfoldable pub flush : Context → Batcher Event → Batcher Event
  flush ctx s = record { batch = []; world = flush_batch_with_deliveries ctx s.batch s.world }

  -- `drainAndFlushWithDeliveries` over what it receives; `done` is the end of its 10 seconds, and
  -- it has no ticker. `true` says that the function returned.
  unfoldable pub drain_and_flush_with_deliveries :
      ℕ → List (Signal Event) → Batcher Event → Bool × Batcher Event
  unfolding flush receive_item
  drain_and_flush_with_deliveries size [] s = (false, s)
  drain_and_flush_with_deliveries size (item i ∷ rest) s =
      drain_and_flush_with_deliveries size rest (receive_item size (background 10) i s)
  drain_and_flush_with_deliveries size (closed ∷ rest) s = (true, flush (background 10) s)
  drain_and_flush_with_deliveries size (done ∷ rest) s = (true, flush (background 5) s)
  drain_and_flush_with_deliveries size (ticked ∷ rest) s =
      drain_and_flush_with_deliveries size rest s

  -- `saveBatchWithDeliveries`
  unfoldable pub save_batch_with_deliveries :
      ℕ → List (Signal Event) → Batcher Event → Bool × Batcher Event
  unfolding drain_and_flush_with_deliveries
  save_batch_with_deliveries size [] s = (false, s)
  save_batch_with_deliveries size (done ∷ rest) s = drain_and_flush_with_deliveries size rest s
  save_batch_with_deliveries size (ticked ∷ rest) s =
      save_batch_with_deliveries size rest (flush caller s)
  save_batch_with_deliveries size (closed ∷ rest) s = (true, flush caller s)
  save_batch_with_deliveries size (item i ∷ rest) s =
      save_batch_with_deliveries size rest (receive_item size caller i s)
