-- ===== src/Tests/Ingestor.antt =====
-- The loops of the ingestor in two environments: one where all goes well, and one where every message
-- is refused; and one message through the whole worker pool.
use synapse_platform.Prelude.{ℕ, ◌≡◌, refl, none, some, List, [], ◌∷◌, true, arith}
use synapse_platform.Ingestor.Errors.{
  GoError, sentinel, other, unknown_data_type, classify, errors_is, errors_as_classified,
  is_terminal_sentinel,
}
use synapse_platform.Ingestor.Message.{FailedMessage, DeviceMessage, Delivery, MessageMetadata}
use synapse_platform.Ingestor.Loop.{
  caller, Environment, World, Config, polled, transformed, refused, stored, failure_stored, acked,
  Transformed, event, failed,
}
use synapse_platform.Ingestor.Loop.Single.{continue, single_turn, ingest_single}
use synapse_platform.Ingestor.Loop.Single.Safety.{ingest_single-AckSafe}
use synapse_platform.Ingestor.Loop.Single.Rounds.{single_turn_stored, single_turn_refused}
use synapse_platform.Ingestor.Loop.Batch.{
  EventWithDelivery, Signal, item, closed, ticked, done, flush, receive_item,
  save_batch_with_deliveries,
}
use synapse_platform.Ingestor.Loop.Batch.Plan.{Flushed, received, save_batch_Flushed}
use synapse_platform.Ingestor.Loop.Justified.{AckSafe}
use synapse_platform.Ingestor.Loop.Pool.{
  Pool, Reach, here, next, produce, send_delivery, take_delivery, work, send_event, receive,
  flush_batch, initial, process_turn, transform_turn, with_batcher, batcher,
}
use synapse_platform.Ingestor.Loop.Pool.Safety.{pool-AckSafe}

abbrev meter : DeviceMessage
meter = record {
  device_id = "d1";
  type = "grid_meter";
  timestamp = 7;
  metrics = none;
  headers = [];
}

abbrev metadata : MessageMetadata
metadata = record { source = "kafka"; headers = []; labels = [] }

abbrev delivery : Delivery
delivery = record { message = some meter; metadata = metadata; ack = some 3 }

abbrev environment : Transformed ℕ → Environment ℕ
environment r = record {
  process_data = λ t. (some delivery, none);
  transform = λ t m. r;
  store_data = λ t ev. none;
  store_batch = λ t evs. none;
  store_failure = λ t f. none;
  call_ack = λ t h. none;
  context_error = λ t site ctx. none;
  timer_first = λ t. true;
  now = λ t. t;
}

abbrev good : Environment ℕ
good = environment (event 42)

abbrev poison : Environment ℕ
poison = environment (failed (other "validator"))

abbrev start : World ℕ
start = record { clock = 0; trace = [] }

single_turn_stored_example :
    (single_turn good caller start).0 ≡ continue
    × ((single_turn good caller start).1.trace
        ≡ acked delivery none
          ∷ stored (42 ∷ []) none
          ∷ transformed meter 42
          ∷ polled (some delivery) none
          ∷ [])
single_turn_stored_example =
    single_turn_stored good caller start delivery meter 3 42 refl refl refl refl refl refl

-- The failure store takes the record of a message that fails with a terminal error.
abbrev fatal : GoError
fatal = sentinel unknown_data_type

abbrev failed_record : FailedMessage
failed_record = record {
  stage = "transform";
  error_type = "terminal";
  error_message = fatal;
  retry_count = 0;
  message = some meter;
  metadata = metadata;
  failed_at = 2;
}

single_turn_refused_example :
    ((single_turn (environment (failed fatal)) caller start).0 ≡ continue)
    × ((single_turn (environment (failed fatal)) caller start).1.trace
        ≡ acked delivery none
          ∷ failure_stored failed_record none
          ∷ refused meter fatal
          ∷ polled (some delivery) none
          ∷ [])
unfolding classify errors_is errors_as_classified is_terminal_sentinel
single_turn_refused_example =
    single_turn_refused (environment (failed fatal)) caller start delivery meter 3 fatal refl refl
      refl refl refl

ingest_single-AckSafe_example : AckSafe (ingest_single good 2 caller start).1.trace
ingest_single-AckSafe_example = ingest_single-AckSafe good 2 caller start tt

abbrev made : EventWithDelivery ℕ
made = record { event = 42; delivery = some delivery }

abbrev signals : List (Signal ℕ)
signals = item made ∷ item made ∷ item made ∷ ticked ∷ item made ∷ done ∷ item made ∷ closed ∷ []

save_batch_Flushed_example :
    Flushed good 2
      (received signals)
      (record { batch = []; world = start })
      (save_batch_with_deliveries good 2 signals (record { batch = []; world = start }))
save_batch_Flushed_example =
    save_batch_Flushed good 2 signals (record { batch = []; world = start }) (omega arith)

abbrev config : Config
config = record { batch_size = 2; batch_timeout = 1; num_workers = 2 }

-- One message through the whole pipeline: polled, handed over, transformed, batched, stored when the
-- timer fires, and acknowledged.
abbrev offering : Pool ℕ
offering = record (initial start) {
  world = (process_turn good start).1;
  offered = some delivery ∷ [];
}

abbrev queued : Pool ℕ
queued = record offering { offered = []; deliveries = some delivery ∷ [] }

abbrev in_work : Pool ℕ
in_work = record queued { deliveries = []; taken = some delivery ∷ [] }

abbrev worked : Pool ℕ
worked = record in_work {
  world = (transform_turn good (some delivery) in_work.world).1;
  taken = [];
  made = made ∷ [];
}

abbrev sent : Pool ℕ
sent = record worked { made = []; events = made ∷ [] }

abbrev batched : Pool ℕ
batched =
    with_batcher (record sent { events = [] }) (receive_item good 2 caller made (batcher sent))

abbrev flushed : Pool ℕ
flushed = with_batcher batched (flush good caller (batcher batched))

pipeline : Reach good config 4 (initial start) flushed
unfolding process_turn synapse_platform.Ingestor.Loop.Single.poll transform_turn
    synapse_platform.Ingestor.Loop.Single.transform
pipeline =
    let s1 : Reach good config 4 (initial start) offering =
      next here (produce (initial start) refl) in
    let s2 : Reach good config 4 (initial start) queued =
      next s1 (send_delivery offering (some delivery) refl (omega arith)) in
    let s3 : Reach good config 4 (initial start) in_work =
      next s2 (take_delivery queued (some delivery) [] refl (omega arith)) in
    let s4 : Reach good config 4 (initial start) worked =
      next s3 (work in_work [] [] (some delivery) refl) in
    let s5 : Reach good config 4 (initial start) sent =
      next s4 (send_event worked [] [] made refl (omega arith)) in
    let s6 : Reach good config 4 (initial start) batched =
      next s5 (receive sent caller made [] refl) in
    next s6 (flush_batch batched caller)

pipeline_trace :
    flushed.world.trace
    ≡ acked delivery none
      ∷ stored (42 ∷ []) none
      ∷ transformed meter 42
      ∷ polled (some delivery) none
      ∷ []
unfolding flush synapse_platform.Ingestor.Loop.Batch.flush_batch_with_deliveries
    synapse_platform.Ingestor.Loop.Batch.store_batch_with_deliveries receive_item
    synapse_platform.Ingestor.Loop.retry_transient synapse_platform.Ingestor.Loop.Batch.store_events
    synapse_platform.Ingestor.Loop.Single.store_data synapse_platform.Ingestor.Loop.ack
    transform_turn synapse_platform.Ingestor.Loop.Single.transform process_turn
    synapse_platform.Ingestor.Loop.Single.poll
pipeline_trace = refl

pool-AckSafe_example : AckSafe flushed.world.trace
pool-AckSafe_example = pool-AckSafe good config 4 start tt pipeline

abbrev cause : GoError
cause = sentinel unknown_data_type
