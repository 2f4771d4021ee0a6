-- ===== src/Ingestor/Loop/Single.antt =====
-- ingestor.go, `ingestSingle`: one message at a time.
pub mod Safety
pub mod Rounds
use synapse_platform.Prelude.{
  ℕ, zero, suc, Bool, true, false, String, Option, none, some, List, [], ◌∷◌, ◌≡◌,
}
use synapse_platform.Ingestor.Errors.{GoError, classify, class_terminal, class_transient}
use synapse_platform.Ingestor.Message.{DeviceMessage, Delivery}
use synapse_platform.Ingestor.Loop.{
  Context, Environment, World, polled, transformed, refused, stored, Transformed, event, failed,
  log, context_error, loop_check, fail_terminal_and_ack, ack, retry_transient, max_store_attempts,
}

-- `continue` goes on with the loop, `return` leaves it.
pub data Control : Type 0 where
  continue return : Control

module _ {Event : Type 0} (env : Environment Event) where
  -- `if ctx.Err() != nil { return nil }; if Classify(err) == ClassTerminal { … }; continue`
  unfoldable pub on_error :
      Context → Option Delivery → String → GoError → ℕ → World Event → Control × World Event
  on_error ctx delivery stage e retry_count w = elim (context_error env loop_check ctx w) [
    | some _ ↦ (return, w)
    | none ↦ elim (classify (some e)) [
      | class_terminal ↦ (continue, fail_terminal_and_ack env ctx delivery stage e retry_count w)
      | class_transient ↦ (continue, w)
    ]
  ]

  -- The call of `ProcessData`.
  unfoldable pub poll : World Event → (Option Delivery × Option GoError) × World Event
  unfolding log
  poll w = let r = env.process_data w.clock in (r, log (polled r.0 r.1) w)

  record_transform : DeviceMessage → Transformed Event → World Event → World Event
  unfolding log
  record_transform m (event ev) w = log (transformed m ev) w
  record_transform m (failed e) w = log (refused m e) w

  -- The call of `Transform`.
  unfoldable pub transform : DeviceMessage → World Event → Transformed Event × World Event
  unfolding record_transform
  transform m w = let r = env.transform w.clock m in (r, record_transform m r w)

  -- The call of `StoreData`.
  unfoldable pub store_data : Event → World Event → Option GoError × World Event
  unfolding log
  store_data ev w = let r = env.store_data w.clock ev in (r, log (stored (ev ∷ []) r) w)

  pub finish_store : Context → Delivery → Option GoError × World Event → Control × World Event
  unfolding on_error
  finish_store ctx d (none, w) = (continue, ack env ctx (some d) "store" w)
  finish_store ctx d (some e, w) = on_error ctx (some d) "store" e max_store_attempts w

  pub store_transformed :
      Context → Delivery → Transformed Event × World Event → Control × World Event
  unfolding on_error finish_store
  store_transformed ctx d (failed e, w) = on_error ctx (some d) "transform" e 0 w
  store_transformed ctx d (event ev, w) =
      finish_store ctx d (retry_transient env ctx (store_data ev) w)

  pub handle_message :
      Context → Delivery → Option DeviceMessage → World Event → Control × World Event
  unfolding store_transformed
  handle_message ctx d none w = (continue, w)
  handle_message ctx d (some m) w = store_transformed ctx d (transform m w)

  pub handle_polled :
      Context → Option Delivery → Option GoError → World Event → Control × World Event
  unfolding on_error handle_message
  handle_polled ctx d (some e) w = on_error ctx d "process" e 0 w
  handle_polled ctx none none w = (continue, w)
  handle_polled ctx (some d) none w = handle_message ctx d d.message w

  -- One round of the loop.
  unfoldable pub single_turn : Context → World Event → Control × World Event
  unfolding handle_polled poll
  single_turn ctx w = let ((d, e), w') = poll w in handle_polled ctx d e w'

  -- `ingestSingle`, for a number of rounds.
  unfoldable pub ingest_single : ℕ → Context → World Event → Control × World Event
  ingest_single zero ctx w = (continue, w)
  ingest_single (suc rounds) ctx w =
      let (c, w') = single_turn ctx w in
      elim c [ return ↦ (return, w') | continue ↦ ingest_single rounds ctx w' ]
