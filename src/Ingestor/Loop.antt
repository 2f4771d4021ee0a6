-- ===== src/Ingestor/Loop.antt =====
-- internal/ingestor/ingestor.go. The collaborators of `Ingestor` are interfaces, so their answers are
-- a parameter: each call takes one tick of a clock, and an answer may depend on the tick. What the
-- loops do is the trace of calls, newest first. An event is opaque to these loops, as in the code.
pub mod Single
pub mod Batch
pub mod Pool
pub mod Justified
pub mod Calls
use synapse_platform.Prelude.{
  ℕ, zero, suc, ◌+◌, ◌^◌, ◌≡◌, Bool, true, false, String, Option, none, some, List, [], ◌∷◌,
  if◌then◌else◌, ltb, leb, length, map,
}
use synapse_platform.Ingestor.Errors.{
  GoError, ErrorClass, class_terminal, class_transient, classify, wrapped,
}
use synapse_platform.Ingestor.Message.{DeviceMessage, Delivery, FailedMessage}

-- A context: that of the loop, or one made from `context.Background` with a timeout in seconds.
pub data Context : Type 0 where
  caller : Context
  background : ℕ → Context

-- Where the code looks at a context: two looks between the same calls may differ.
pub data Site : Type 0 where
  loop_check operation after_ack waiting sending receiving : Site

pub data Effect (Event : Type 0) : Type 0 where
  polled : Option Delivery → Option GoError → Effect Event
  transformed : DeviceMessage → Event → Effect Event
  refused : DeviceMessage → GoError → Effect Event
  stored : List Event → Option GoError → Effect Event
  failure_stored : FailedMessage → Option GoError → Effect Event
  acked : Delivery → Option GoError → Effect Event
  waited : ℕ → Effect Event

-- What `Transform` returns.
pub data Transformed (Event : Type 0) : Type 0 where
  event : Event → Transformed Event
  failed : GoError → Transformed Event

-- The answers of the collaborators, of `ctx.Err()`, of `time.Now()`, and of a `select` between a
-- timer and a context that is done.
pub record Environment (Event : Type 0) : Type 0 where
  pub process_data : ℕ → Option Delivery × Option GoError
  pub transform : ℕ → DeviceMessage → Transformed Event
  pub store_data : ℕ → Event → Option GoError
  pub store_batch : ℕ → List Event → Option GoError
  pub store_failure : ℕ → FailedMessage → Option GoError
  pub call_ack : ℕ → ℕ → Option GoError
  pub context_error : ℕ → Site → Context → Option GoError
  pub timer_first : ℕ → Bool
  pub now : ℕ → ℕ

pub record World (Event : Type 0) : Type 0 where
  pub clock : ℕ
  pub trace : List (Effect Event)

pub record Config : Type 0 where
  pub batch_size : ℕ
  pub batch_timeout : ℕ
  pub num_workers : ℕ

-- `New`: the defaults; a Go `int` or duration at or below zero is 0 here.
unfoldable pub new_config : Config → Config
new_config c = record {
  batch_size = if leb c.batch_size 0 then 1 else c.batch_size;
  batch_timeout = if leb c.batch_timeout 0 then 1000000000 else c.batch_timeout;
  num_workers = if leb c.num_workers 0 then 1 else c.num_workers;
}

abbrev pub max_store_attempts : ℕ
max_store_attempts = 3

module _ {Event : Type 0} where
  unfoldable pub log : Effect Event → World Event → World Event
  log e w = record { clock = w.clock + 1; trace = e ∷ w.trace }

module _ {Event : Type 0} (env : Environment Event) where
  abbrev pub context_error : Site → Context → World Event → Option GoError
  context_error site ctx w = env.context_error w.clock site ctx

  unfoldable pub operation_context : Context → ℕ → World Event → Context
  operation_context ctx timeout w = elim (context_error operation ctx w) [
    | none ↦ ctx
    | some _ ↦ background timeout
  ]

  unfoldable pub store_failure : FailedMessage → World Event → Option GoError × World Event
  unfolding log
  store_failure f w = let r = env.store_failure w.clock f in (r, log (failure_stored f r) w)

  -- The handler was called: an error of it is recorded unless its context is done.
  unfoldable pub ack_failed :
      Context → Delivery → String → Option GoError → World Event → World Event
  unfolding store_failure
  ack_failed op d stage none w = w
  ack_failed op d stage (some e) w = elim (context_error after_ack op w) [
    | some _ ↦ w
    | none ↦
        (store_failure
          (record {
            stage = stage;
            error_type = "ack_failed";
            error_message = e;
            retry_count = 0;
            message = none;
            metadata = d.metadata;
            failed_at = env.now w.clock;
          })
          w).1
  ]

  unfoldable pub call_ack : Context → Delivery → String → Option ℕ → World Event → World Event
  unfolding ack_failed operation_context log
  call_ack ctx d stage none w = w
  call_ack ctx d stage (some handler) w =
      let op = operation_context ctx 5 w in
      let r = env.call_ack w.clock handler in ack_failed op d stage r (log (acked d r) w)

  unfoldable pub ack : Context → Option Delivery → String → World Event → World Event
  unfolding call_ack
  ack ctx none stage w = w
  ack ctx (some d) stage w = call_ack ctx d stage d.ack w

  unfoldable pub fail_terminal_and_ack :
      Context → Option Delivery → String → GoError → ℕ → World Event → World Event
  unfolding ack
  fail_terminal_and_ack ctx none stage e retry_count w = w
  fail_terminal_and_ack ctx (some d) stage e retry_count w =
      let op = operation_context ctx 5 w in
      let (r, w') =
        store_failure
          (record {
            stage = stage;
            error_type = "terminal";
            error_message = e;
            retry_count = retry_count;
            message = d.message;
            metadata = d.metadata;
            failed_at = env.now w.clock;
          })
          w in
      elim r [ some _ ↦ w' | none ↦ ack op (some d) stage w' ]

  -- The loop of `retryTransient`: attempts left, attempts made, the last error.
  unfoldable pub retry_from :
      Context
      → (World Event → Option GoError × World Event)
      → ℕ
      → ℕ
      → Option GoError
      → World Event
      → Option GoError × World Event
  unfolding log
  retry_from ctx op zero attempt last w = (last, w)
  retry_from ctx op (suc left) attempt last w =
      let (r, w') = op w in
      elim r [
        | none ↦ (none, w')
        | some e ↦ elim (classify (some e)) [
          | class_terminal ↦ (some e, w')
          | class_transient ↦ elim (context_error waiting ctx w') [
            | none ↦ retry_from ctx op left (attempt + 1) (some e) (log (waited (2 ^ attempt)) w')
            | some done ↦ elim (env.timer_first w'.clock) [
              | true ↦ retry_from ctx op left (attempt + 1) (some e) (log (waited (2 ^ attempt)) w')
              | false ↦ (some done, w')
            ]
          ]
        ]
      ]

  unfoldable pub retry_transient :
      Context
      → (World Event → Option GoError × World Event)
      → World Event
      → Option GoError × World Event
  unfolding retry_from
  retry_transient ctx op w = retry_from ctx op max_store_attempts 0 none w
