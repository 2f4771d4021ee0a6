-- ===== src/Ingestor/Loop/Pool.antt =====
-- ingestor.go: the goroutines of `ingestBatch` and `ingestWithWorkerPool`, as a relation on the
-- state that they share. A step is what one goroutine does between two operations on a channel.
pub mod Turns
pub mod Safety
use synapse_platform.Prelude.{
  ℕ, ◌+◌, ◌*◌, ◌<◌, ◌≡◌, ◌≢◌, Bool, true, false, String, Option, none, some, List, [], ◌∷◌, ◌++◌,
  length, leb,
}
use synapse_platform.Ingestor.Errors.{GoError, classify, class_terminal, class_transient, wrapped}
use synapse_platform.Ingestor.Message.{DeviceMessage, Delivery}
use synapse_platform.Ingestor.Loop.{
  Context, caller, background, Environment, World, Transformed, event, failed, context_error,
  loop_check, sending, receiving, fail_terminal_and_ack, Config,
}
use synapse_platform.Ingestor.Loop.Single.{Control, continue, return, on_error, poll, transform}
use synapse_platform.Ingestor.Loop.Batch.{EventWithDelivery, Batcher, receive_item, flush}

-- What a round of a goroutine ends in: it returns, goes on, or waits to send a value.
pub data Turn (A : Type 0) : Type 0 where
  stop again : Turn A
  send : A → Turn A

abbrev of_control : {A : Type 0} {Event : Type 0} → Control × World Event → Turn A × World Event
of_control (continue, w) = (again, w)
of_control (return, w) = (stop, w)

abbrev message_of : Option Delivery → Option DeviceMessage
message_of none = none
message_of (some d) = d.message

module _ {Event : Type 0} (env : Environment Event) where
  offer_delivery :
      Option Delivery → Option DeviceMessage → World Event → Turn (Option Delivery) × World Event
  offer_delivery d none w = (again, w)
  offer_delivery d (some m) w = (send d, w)

  after_poll : Option Delivery → Option GoError → World Event → Turn (Option Delivery) × World Event
  unfolding offer_delivery
  after_poll d (some e) w = of_control (on_error env caller d "process" e 0 w)
  after_poll d none w = offer_delivery d (message_of d) w

  -- A round of `processDeliveries`, up to the `select` that sends.
  unfoldable pub process_turn : World Event → Turn (Option Delivery) × World Event
  unfolding after_poll
  process_turn w = elim (context_error env loop_check caller w) [
    | some _ ↦ (stop, w)
    | none ↦ let ((d, e), w') = poll env w in after_poll d e w'
  ]

  worker_error :
      Option Delivery → GoError → World Event → Turn (EventWithDelivery Event) × World Event
  worker_error d e w = elim (context_error env loop_check caller w) [
    | some _ ↦ (stop, w)
    | none ↦ elim (classify (some e)) [
      | class_terminal ↦
          (again, fail_terminal_and_ack env caller d "transform" (wrapped "worker" e) 0 w)
      | class_transient ↦ (again, w)
    ]
  ]

  after_transform :
      Option Delivery
      → Transformed Event × World Event
      → Turn (EventWithDelivery Event) × World Event
  unfolding worker_error
  after_transform d (event ev, w) = (send (record { event = ev; delivery = d }), w)
  after_transform d (failed e, w) = worker_error d e w

  transform_message :
      Option Delivery
      → Option DeviceMessage
      → World Event
      → Turn (EventWithDelivery Event) × World Event
  unfolding after_transform
  transform_message d none w = (again, w)
  transform_message d (some m) w = after_transform d (transform env m w)

  -- A round of `transformDeliveries` on a delivery that it received.
  unfoldable pub transform_turn :
      Option Delivery → World Event → Turn (EventWithDelivery Event) × World Event
  unfolding transform_message
  transform_turn d w = transform_message d (message_of d) w

  own_transform :
      Option Delivery
      → Transformed Event × World Event
      → Turn (EventWithDelivery Event) × World Event
  own_transform d (event ev, w) = (send (record { event = ev; delivery = d }), w)
  own_transform d (failed e, w) = of_control (on_error env caller d "transform" e 0 w)

  own_message :
      Option Delivery
      → Option DeviceMessage
      → World Event
      → Turn (EventWithDelivery Event) × World Event
  unfolding own_transform
  own_message d none w = (again, w)
  own_message d (some m) w = own_transform d (transform env m w)

  own_poll :
      Option Delivery → Option GoError → World Event → Turn (EventWithDelivery Event) × World Event
  unfolding own_message
  own_poll d (some e) w = of_control (on_error env caller d "process" e 0 w)
  own_poll d none w = own_message d (message_of d) w

  -- A round of `handleBatch`, up to the `select` that sends.
  unfoldable pub handle_batch_turn : World Event → Turn (EventWithDelivery Event) × World Event
  unfolding own_poll
  handle_batch_turn w = elim (context_error env loop_check caller w) [
    | some _ ↦ (stop, w)
    | none ↦ let ((d, e), w') = poll env w in own_poll d e w'
  ]

-- `offered` and `made` are the values that goroutines wait to send, `taken` the deliveries that
-- workers have received; `deliveries` and `events` are the buffers of the two channels.
pub record Pool (Event : Type 0) : Type 0 where
  pub world : World Event
  pub offered : List (Option Delivery)
  pub deliveries : List (Option Delivery)
  pub taken : List (Option Delivery)
  pub made : List (EventWithDelivery Event)
  pub events : List (EventWithDelivery Event)
  pub batch : List (EventWithDelivery Event)

abbrev pub turn_list : {A : Type 0} → Turn A → List A → List A
turn_list stop l = l
turn_list again l = l
turn_list (send a) l = a ∷ l

abbrev pub batcher : {Event : Type 0} → Pool Event → Batcher Event
batcher p = record { batch = p.batch; world = p.world }

abbrev pub with_batcher : {Event : Type 0} → Pool Event → Batcher Event → Pool Event
with_batcher p s = record p { batch = s.batch; world = s.world }

-- The channel of events holds `event_capacity` items: `BatchSize*2`, or `NumWorkers*BatchSize`.
module _ {Event : Type 0} (env : Environment Event) (cfg : Config) (event_capacity : ℕ) where
  -- A value that waits is sent if its channel has room, or dropped if the context is done.
  pub data Step : Pool Event → Pool Event → Type 0 where
    produce :
        (p : Pool Event)
        → p.offered ≡ []
        → Step p (record p {
          world = (process_turn env p.world).1;
          offered = turn_list (process_turn env p.world).0 [];
        })
    send_delivery :
        (p : Pool Event) (d : Option Delivery)
        → p.offered ≡ d ∷ []
        → length p.deliveries < cfg.num_workers * 10
        → Step p (record p { offered = []; deliveries = p.deliveries ++ d ∷ [] })
    drop_delivery :
        (p : Pool Event)
        → context_error env sending caller p.world ≢ none
        → Step p (record p { offered = [] })
    take_delivery :
        (p : Pool Event) (d : Option Delivery) (rest : List (Option Delivery))
        → p.deliveries ≡ d ∷ rest
        → length p.taken + length p.made < cfg.num_workers
        → Step p (record p { deliveries = rest; taken = d ∷ p.taken })
    work :
        (p : Pool Event) (before after : List (Option Delivery)) (d : Option Delivery)
        → p.taken ≡ before ++ d ∷ after
        → Step p (record p {
          world = (transform_turn env d p.world).1;
          taken = before ++ after;
          made = turn_list (transform_turn env d p.world).0 p.made;
        })
    handle_batch :
        (p : Pool Event)
        → p.made ≡ []
        → Step p (record p {
          world = (handle_batch_turn env p.world).1;
          made = turn_list (handle_batch_turn env p.world).0 [];
        })
    send_event :
        (p : Pool Event) (before after : List (EventWithDelivery Event))
        (i : EventWithDelivery Event)
        → p.made ≡ before ++ i ∷ after
        → length p.events < event_capacity
        → Step p (record p { made = before ++ after; events = p.events ++ i ∷ [] })
    drop_event :
        (p : Pool Event) (before after : List (EventWithDelivery Event))
        (i : EventWithDelivery Event)
        → p.made ≡ before ++ i ∷ after
        → context_error env sending caller p.world ≢ none
        → Step p (record p { made = before ++ after })
    receive :
        (p : Pool Event) (ctx : Context) (i : EventWithDelivery Event)
        (rest : List (EventWithDelivery Event))
        → p.events ≡ i ∷ rest
        → Step p (
            with_batcher
              (record p { events = rest })
              (receive_item env cfg.batch_size ctx i (batcher p)))
    flush_batch :
        (p : Pool Event) (ctx : Context) → Step p (with_batcher p (flush env ctx (batcher p)))

  pub data Reach (p : Pool Event) : Pool Event → Type 0 where
    here : Reach p p
    next : {q r : Pool Event} → Reach p q → Step q r → Reach p r

abbrev pub initial : {Event : Type 0} → World Event → Pool Event
initial w = record {
  world = w;
  offered = [];
  deliveries = [];
  taken = [];
  made = [];
  events = [];
  batch = [];
}
