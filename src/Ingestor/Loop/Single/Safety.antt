-- ===== src/Ingestor/Loop/Single/Safety.antt =====
-- `ingestSingle`: what each round, and any number of rounds, does to the trace.
use synapse_platform.Prelude.{
  ℕ, zero, suc, ◌≡◌, refl, ap, sym, String, Option, none, some, [], ◌∷◌, Memᴰ, Option-cases, inl,
  inr, ◌⊎◌,
}
use synapse_platform.Ingestor.Errors.{GoError, classify}
use synapse_platform.Ingestor.Message.{DeviceMessage, Delivery}
use synapse_platform.Ingestor.Loop.{
  transformed, stored, Context, Environment, World, log, Transformed, event, failed, context_error,
  loop_check, retry_transient, max_store_attempts,
}
use synapse_platform.Ingestor.Loop.Single.{
  Control, continue, return, on_error, poll, record_transform, transform, store_data, finish_store,
  store_transformed, handle_message, handle_polled, single_turn, ingest_single,
}
use synapse_platform.Ingestor.Loop.Justified.{
  Justified, by_store, AckSafe, same, more, Sound, Sound-refl, Sound-trans, mem-Extends,
}
use synapse_platform.Ingestor.Loop.Calls.{
  Class-cases, ack-Sound, fail_terminal_and_ack-Sound, retry_transient-Retried,
}

Control-cases : (c : Control) → (c ≡ continue) ⊎ (c ≡ return)
Control-cases continue = inl refl
Control-cases return = inr refl

module _ {Event : Type 0} (env : Environment Event) where
  pub on_error-Sound :
      (ctx : Context) (d : Option Delivery) (stage : String) (e : GoError) (n : ℕ) (w : World Event)
      → Sound w (on_error env ctx d stage e n w).1
  unfolding on_error
  on_error-Sound ctx d stage e n w = elim (Option-cases (context_error env loop_check ctx w)) [
    | inr (x, p) ↦ rw (p, on_error) (Sound-refl w)
    | inl p ↦ elim (Class-cases (classify (some e))) [
      | inl q ↦ rw (p, on_error, q) (fail_terminal_and_ack-Sound env ctx d stage e n w)
      | inr q ↦ rw (p, on_error, q) (Sound-refl w)
    ]
  ]

  pub poll-Sound : (w : World Event) → Sound w (poll env w).1
  unfolding poll
  poll-Sound w = record { extends = more same; safe = λ h. h }

  record_transform-Sound :
      (m : DeviceMessage) (r : Transformed Event) (w : World Event)
      → Sound w (record_transform env m r w)
  unfolding record_transform
  record_transform-Sound m (event ev) w = record { extends = more same; safe = λ h. h }
  record_transform-Sound m (failed e) w = record { extends = more same; safe = λ h. h }

  pub transform-Sound : (m : DeviceMessage) (w : World Event) → Sound w (transform env m w).1
  unfolding transform
  transform-Sound m w = record_transform-Sound m (env.transform w.clock m) w

  pub transform-mem :
      (m : DeviceMessage) (w : World Event) (ev : Event)
      → (transform env m w).0 ≡ event ev
      → Memᴰ (transformed m ev) (transform env m w).1.trace
  unfolding transform record_transform
  transform-mem m w ev e = rw e (Memᴰ.head refl)

  pub store_data-Sound : (ev : Event) (w : World Event) → Sound w (store_data env ev w).1
  unfolding store_data
  store_data-Sound ev w = record { extends = more same; safe = λ h. h }

  pub store_data-mem :
      (ev : Event) (w : World Event)
      → (store_data env ev w).0 ≡ none
      → Memᴰ (stored (ev ∷ []) none) (store_data env ev w).1.trace
  unfolding store_data log
  store_data-mem ev w e = Memᴰ.head (ap (stored (ev ∷ [])) (sym e))

  finish_store-Sound :
      (ctx : Context) (d : Delivery) (w : World Event) (r : Option GoError × World Event)
      → Sound w r.1
      → (r.0 ≡ none → Justified d r.1.trace)
      → Sound w (finish_store env ctx d r).1
  unfolding finish_store
  finish_store-Sound ctx d w (none, v) s j = Sound-trans s (ack-Sound env ctx d "store" v (j refl))
  finish_store-Sound ctx d w (some e, v) s j =
      Sound-trans s (on_error-Sound ctx (some d) "store" e max_store_attempts v)

  store_transformed-Sound :
      (ctx : Context) (d : Delivery) (m : DeviceMessage) (r : Transformed Event × World Event)
      → d.message ≡ some m
      → ((ev : Event) → r.0 ≡ event ev → Memᴰ (transformed m ev) r.1.trace)
      → Sound r.1 (store_transformed env ctx d r).1
  unfolding store_transformed
  store_transformed-Sound ctx d m (failed e, w) dm mem =
      on_error-Sound ctx (some d) "transform" e 0 w
  store_transformed-Sound ctx d m (event ev, w) dm mem =
      let (s, q) =
        retry_transient-Retried env (λ v. Memᴰ (stored (ev ∷ []) none) v.trace) ctx
          (store_data env ev) (store_data-Sound ev) (store_data-mem ev) w in
      finish_store-Sound ctx d w (retry_transient env ctx (store_data env ev) w) s (λ e.
        by_store {m = m} {ev = ev} dm (mem-Extends s.extends (mem ev refl)) (Memᴰ.head refl) (q e))

  handle_message-Sound :
      (ctx : Context) (d : Delivery) (dm : Option DeviceMessage) (w : World Event)
      → d.message ≡ dm
      → Sound w (handle_message env ctx d dm w).1
  unfolding handle_message
  handle_message-Sound ctx d none w e = Sound-refl w
  handle_message-Sound ctx d (some m) w e =
      Sound-trans (transform-Sound m w)
        (store_transformed-Sound ctx d m (transform env m w) e (transform-mem m w))

  handle_polled-Sound :
      (ctx : Context) (d : Option Delivery) (e : Option GoError) (w : World Event)
      → Sound w (handle_polled env ctx d e w).1
  unfolding handle_polled
  handle_polled-Sound ctx d (some e) w = on_error-Sound ctx d "process" e 0 w
  handle_polled-Sound ctx none none w = Sound-refl w
  handle_polled-Sound ctx (some d) none w = handle_message-Sound ctx d d.message w refl

  pub single_turn-Sound : (ctx : Context) (w : World Event) → Sound w (single_turn env ctx w).1
  unfolding single_turn
  single_turn-Sound ctx w =
      Sound-trans (poll-Sound w)
        (handle_polled-Sound ctx (poll env w).0.0 (poll env w).0.1 (poll env w).1)

  ingest_single-Sound :
      (rounds : ℕ) (ctx : Context) (w : World Event) → Sound w (ingest_single env rounds ctx w).1
  unfolding ingest_single
  ingest_single-Sound zero ctx w = Sound-refl w
  ingest_single-Sound (suc n) ctx w = elim (Control-cases (single_turn env ctx w).0) [
    | inl p ↦
        rw (p, ingest_single)
          (Sound-trans (single_turn-Sound ctx w)
            (ingest_single-Sound n ctx (single_turn env ctx w).1))
    | inr p ↦ rw (p, ingest_single) (single_turn-Sound ctx w)
  ]

  -- In any number of rounds of the one-message loop, whatever the collaborators answer and whenever
  -- the context is done, a delivery is acknowledged only after the event made from its message was
  -- stored without an error, or a record with the message itself was put into failure storage without
  -- an error. For a delivery without a message, whose payload could not be decoded, a record with its
  -- metadata was put there, and nothing of the payload.
  pub ingest_single-AckSafe :
      (rounds : ℕ) (ctx : Context) (w : World Event)
      → AckSafe w.trace
      → AckSafe (ingest_single env rounds ctx w).1.trace
  ingest_single-AckSafe rounds ctx w h = (ingest_single-Sound rounds ctx w).safe h
