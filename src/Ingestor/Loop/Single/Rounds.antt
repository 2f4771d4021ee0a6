-- ===== src/Ingestor/Loop/Single/Rounds.antt =====
-- `ingestSingle`: what one round does to a delivery with a message, on each of its branches.
use synapse_platform.Prelude.{
  ℕ, ◌+◌, ◌≡◌, refl, none, some, List, [], ◌∷◌, ◌++◌, Option, Option-cases, inl, inr, String, ap,
  ◌∙◌,
}
use synapse_platform.Ingestor.Errors.{
  GoError, ErrorClass, classify, class_transient, class_terminal,
}
use synapse_platform.Ingestor.Message.{DeviceMessage, Delivery, FailedMessage}
use synapse_platform.Ingestor.Loop.{
  Effect, failure_stored, fail_terminal_and_ack, store_failure, polled, transformed, refused,
  stored, acked, Context, Environment, World, log, Transformed, event, failed, loop_check, ack,
  call_ack, ack_failed, operation_context, retry_transient, retry_from,
}
use synapse_platform.Ingestor.Loop.Calls.{Class-cases}
use synapse_platform.Ingestor.Loop.Single.{
  Control, continue, return, single_turn, handle_polled, handle_message, store_transformed,
  finish_store, transform, record_transform, store_data, on_error,
}

module _ {Event : Type 0} (env : Environment Event) where
  polled_message :
      (ctx : Context) (w : World Event) (d : Delivery) (m : DeviceMessage)
      → env.process_data w.clock ≡ (some d, none)
      → d.message ≡ some m
      → single_turn env ctx w
        ≡ store_transformed env ctx d (transform env m (log (polled (some d) none) w))
  unfolding single_turn
  polled_message ctx w d m p dm =
      ap (λ r. handle_polled env ctx r.0 r.1 (log (polled r.0 r.1) w)) p
      ∙ ap (λ r. handle_message env ctx d r (log (polled (some d) none) w)) dm

  transform_eq :
      (m : DeviceMessage) (w : World Event) (r : Transformed Event)
      → env.transform w.clock m ≡ r
      → transform env m w ≡ (r, record_transform env m r w)
  unfolding transform
  transform_eq m w r e = ap (λ x. (x, record_transform env m x w)) e

  stored_at_once :
      (ctx : Context) (w : World Event) (ev : Event)
      → env.store_data w.clock ev ≡ none
      → retry_transient env ctx (store_data env ev) w ≡ (none, log (stored (ev ∷ []) none) w)
  unfolding retry_transient store_data
  stored_at_once ctx w ev s = rw (s, retry_from) (ap (λ r. (none, log (stored (ev ∷ []) r) w)) s)

  acked_at_once :
      (ctx : Context) (w : World Event) (d : Delivery) (stage : String) (h : ℕ)
      → d.ack ≡ some h
      → env.call_ack w.clock h ≡ none
      → ack env ctx (some d) stage w ≡ log (acked d none) w
  unfolding ack
  acked_at_once ctx w d stage h e a =
      ap (λ x. call_ack env ctx d stage x w) e
      ∙ ap (λ r. ack_failed env (operation_context env ctx 5 w) d stage r (log (acked d r) w)) a

  -- A message whose event is stored at the first attempt is acknowledged in the same round, once,
  -- and the round leaves nothing else behind.
  pub single_turn_stored :
      (ctx : Context) (w : World Event) (d : Delivery) (m : DeviceMessage) (h : ℕ) (ev : Event)
      → env.process_data w.clock ≡ (some d, none)
      → d.message ≡ some m
      → d.ack ≡ some h
      → env.transform (w.clock + 1) m ≡ event ev
      → env.store_data (w.clock + 1 + 1) ev ≡ none
      → env.call_ack (w.clock + 1 + 1 + 1) h ≡ none
      → (single_turn env ctx w).0 ≡ continue
        × ((single_turn env ctx w).1.trace
            ≡ acked d none
              ∷ stored (ev ∷ []) none
              ∷ transformed m ev
              ∷ polled (some d) none
              ∷ w.trace)
  unfolding single_turn retry_transient record_transform
  single_turn_stored ctx w d m h ev p dm da t s a =
      let w1 = log (polled (some d) none) w in
      let w2 = log (transformed m ev) w1 in
      let w3 = log (stored (ev ∷ []) none) w2 in
      let whole : single_turn env ctx w ≡ (continue, log (acked d none) w3) =
        polled_message ctx w d m p dm
        ∙ ap (store_transformed env ctx d) (transform_eq m w1 (event ev) t)
        ∙ ap (finish_store env ctx d) (stored_at_once ctx w2 ev s)
        ∙ ap (λ v. (continue, v)) (acked_at_once ctx w3 d "store" h da a) in
      (ap (λ r. r.0) whole, ap (λ r. r.1.trace) whole)

  -- The record of a message that is refused in world `w`.
  abbrev pub refusal : World Event → Delivery → GoError → FailedMessage
  refusal w d e = record {
    stage = "transform";
    error_type = "terminal";
    error_message = e;
    retry_count = 0;
    message = d.message;
    metadata = d.metadata;
    failed_at = env.now w.clock;
  }

  -- The calls for a refused message, latest first, by the answer of the failure store: its record, and
  -- the handler once the record is stored.
  abbrev pub refusal_calls : Delivery → FailedMessage → Option GoError → List (Effect Event)
  refusal_calls d f (some x) = failure_stored f (some x) ∷ []
  refusal_calls d f none = acked d none ∷ failure_stored f none ∷ []

  -- Whether the loop goes on after a refused message, and with which calls behind it, by the error of
  -- the context and the class of the refusal.
  abbrev pub refused_so :
      Option GoError → ErrorClass → List (Effect Event) → Control × List (Effect Event)
  refused_so (some done) class calls = (return, [])
  refused_so none class_transient calls = (continue, [])
  refused_so none class_terminal calls = (continue, calls)

  store_failure_eq :
      (f : FailedMessage) (w : World Event) (r : Option GoError)
      → env.store_failure w.clock f ≡ r
      → store_failure env f w ≡ (r, log (failure_stored f r) w)
  unfolding store_failure
  store_failure_eq f w r e = ap (λ x. (x, log (failure_stored f x) w)) e

  refusal_acked :
      (ctx : Context) (w : World Event) (d : Delivery) (h : ℕ) (e : GoError)
      → d.ack ≡ some h
      → env.call_ack (w.clock + 1) h ≡ none
      → (fail_terminal_and_ack env ctx (some d) "transform" e 0 w).trace
        ≡ refusal_calls d (refusal w d e) (env.store_failure w.clock (refusal w d e)) ++ w.trace
  unfolding fail_terminal_and_ack store_failure
  refusal_acked ctx w d h e da a =
      let f = refusal w d e in
      elim (Option-cases (env.store_failure w.clock f)) [
        | inr (x, p) ↦
            rw (p, fail_terminal_and_ack) (ap (λ v. v.1.trace) (store_failure_eq f w (some x) p))
        | inl p ↦
            let op = operation_context env ctx 5 w in
            rw (p, fail_terminal_and_ack)
              (ap (λ v. (ack env op (some d) "transform" v.1).trace) (store_failure_eq f w none p)
                ∙ ap (λ v. v.trace)
                    (acked_at_once op (log (failure_stored f none) w) d "transform" h da a))
      ]

  on_error_refused :
      (ctx : Context) (w : World Event) (d : Delivery) (h : ℕ) (e : GoError)
      → d.ack ≡ some h
      → env.call_ack (w.clock + 1) h ≡ none
      → let f = refusal w d e in
        let so =
          refused_so
            (env.context_error w.clock loop_check ctx)
            (classify (some e))
            (refusal_calls d f (env.store_failure w.clock f)) in
        ((on_error env ctx (some d) "transform" e 0 w).0 ≡ so.0)
        × ((on_error env ctx (some d) "transform" e 0 w).1.trace ≡ so.1 ++ w.trace)
  unfolding on_error
  on_error_refused ctx w d h e da a =
      elim (Option-cases (env.context_error w.clock loop_check ctx)) [
        | inr (x, p) ↦ rw (p, on_error) (refl, refl)
        | inl p ↦ elim (Class-cases (classify (some e))) [
          | inl c ↦ rw (p, on_error, c) (refl, refusal_acked ctx w d h e da a)
          | inr c ↦ rw (p, on_error, c) (refl, refl)
        ]
      ]

  -- The round of a message that `Transform` refuses, whose handler succeeds if it is called. When the
  -- context is done the round leaves the loop, and nothing is called. Else the loop goes on: after an
  -- error of the terminal class a record with the message goes to failure storage, and the message is
  -- acknowledged exactly if that takes it; after one of the transient class the message is
  -- dropped, with no acknowledgement and nothing in failure storage.
  pub single_turn_refused :
      (ctx : Context) (w : World Event) (d : Delivery) (m : DeviceMessage) (h : ℕ) (e : GoError)
      → env.process_data w.clock ≡ (some d, none)
      → d.message ≡ some m
      → d.ack ≡ some h
      → env.transform (w.clock + 1) m ≡ failed e
      → env.call_ack (w.clock + 1 + 1 + 1) h ≡ none
      → let w2 : World Event = record {
        clock = w.clock + 1 + 1;
        trace = refused m e ∷ polled (some d) none ∷ w.trace;
      } in
        let f = refusal w2 d e in
        let so =
          refused_so
            (env.context_error w2.clock loop_check ctx)
            (classify (some e))
            (refusal_calls d f (env.store_failure w2.clock f)) in
        ((single_turn env ctx w).0 ≡ so.0) × ((single_turn env ctx w).1.trace ≡ so.1 ++ w2.trace)
  unfolding single_turn record_transform
  single_turn_refused ctx w d m h e p dm da t a =
      let w1 = log (polled (some d) none) w in
      let w2 = log (refused m e) w1 in
      let whole : single_turn env ctx w ≡ on_error env ctx (some d) "transform" e 0 w2 =
        polled_message ctx w d m p dm
        ∙ ap (store_transformed env ctx d) (transform_eq m w1 (failed e) t) in
      let (same, trace) = on_error_refused ctx w2 d h e da a in
      (ap (λ r. r.0) whole ∙ same, ap (λ r. r.1.trace) whole ∙ trace)
