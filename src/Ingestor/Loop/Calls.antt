-- ===== src/Ingestor/Loop/Calls.antt =====
-- The shared calls of the loops keep the trace safe.
use synapse_platform.Prelude.{
  ℕ, zero, suc, ◌+◌, ◌≡◌, refl, ap, sym, String, Option, none, some, Memᴰ, Option-cases, inl, inr,
  Bool-cases, ◌≢◌, ◌^◌, ◌⊎◌, arith,
}
use synapse_platform.Ingestor.Errors.{
  GoError, ErrorClass, class_terminal, class_transient, classify,
}
use synapse_platform.Ingestor.Message.{Delivery, FailedMessage}
use synapse_platform.Ingestor.Loop.{
  Effect, waited, Context, Environment, World, log, context_error, after_ack, waiting,
  store_failure, ack_failed, call_ack, ack, operation_context, fail_terminal_and_ack, retry_from,
  retry_transient,
}
use synapse_platform.Ingestor.Loop.Justified.{
  Justified, failure-Justified, same, more, Sound, Sound-refl, Sound-trans,
}

pub Class-cases : (c : ErrorClass) → (c ≡ class_terminal) ⊎ (c ≡ class_transient)
Class-cases class_terminal = inl refl
Class-cases class_transient = inr refl

module _ {Event : Type 0} (env : Environment Event) where
  store_failure-Sound : (f : FailedMessage) (w : World Event) → Sound w (store_failure env f w).1
  unfolding store_failure
  store_failure-Sound f w = record { extends = more same; safe = λ h. h }

  ack_failed-Sound :
      (op : Context) (d : Delivery) (stage : String) (r : Option GoError) (w : World Event)
      → Sound w (ack_failed env op d stage r w)
  unfolding ack_failed
  ack_failed-Sound op d stage none w = Sound-refl w
  ack_failed-Sound op d stage (some e) w = elim (Option-cases (context_error env after_ack op w)) [
    | inl p ↦ rw (p, ack_failed) record { extends = more same; safe = λ h. h }
    | inr (x, p) ↦ rw (p, ack_failed) (Sound-refl w)
  ]

  call_ack-Sound :
      (ctx : Context) (d : Delivery) (stage : String) (handler : Option ℕ) (w : World Event)
      → Justified d w.trace
      → Sound w (call_ack env ctx d stage handler w)
  unfolding call_ack
  call_ack-Sound ctx d stage none w j = Sound-refl w
  call_ack-Sound ctx d stage (some a) w j =
      let step : Sound w (log (Effect.acked d (env.call_ack w.clock a)) w) = record {
        extends = more same;
        safe = λ h. (j, h);
      } in
      Sound-trans step
        (ack_failed-Sound (operation_context env ctx 5 w) d stage (env.call_ack w.clock a) _)

  pub ack-Sound :
      (ctx : Context) (d : Delivery) (stage : String) (w : World Event)
      → Justified d w.trace
      → Sound w (ack env ctx (some d) stage w)
  unfolding ack
  ack-Sound ctx d stage w j = call_ack-Sound ctx d stage d.ack w j

  fail_terminal_and_ack-some :
      (ctx : Context) (d : Delivery) (stage : String) (e : GoError) (n : ℕ) (w : World Event)
      → Sound w (fail_terminal_and_ack env ctx (some d) stage e n w)
  unfolding fail_terminal_and_ack
  fail_terminal_and_ack-some ctx d stage e n w =
      let f : FailedMessage = record {
        stage = stage;
        error_type = "terminal";
        error_message = e;
        retry_count = n;
        message = d.message;
        metadata = d.metadata;
        failed_at = env.now w.clock;
      } in
      let w' = (store_failure env f w).1 in
      let step : Sound w w' = store_failure-Sound f w in
      elim (Option-cases (env.store_failure w.clock f)) [
        | inl p ↦
            rw (p, fail_terminal_and_ack)
              (Sound-trans step (
                ack-Sound (operation_context env ctx 5 w) d stage w' (
                  failure-Justified {f = f} refl refl
                    (Memᴰ.head (ap (Effect.failure_stored f) (sym p))))))
        | inr (x, p) ↦ rw (p, fail_terminal_and_ack) step
      ]

  pub fail_terminal_and_ack-Sound :
      (ctx : Context) (d : Option Delivery) (stage : String) (e : GoError) (n : ℕ) (w : World Event)
      → Sound w (fail_terminal_and_ack env ctx d stage e n w)
  unfolding fail_terminal_and_ack
  fail_terminal_and_ack-Sound ctx none stage e n w = Sound-refl w
  fail_terminal_and_ack-Sound ctx (some d) stage e n w =
      fail_terminal_and_ack-some ctx d stage e n w

  -- What one attempt ensures, the whole of the retries does: the trace stays safe, and `Q` holds
  -- where no error is returned.
  module _ (Q : World Event → Type 0) (ctx : Context)
      (op : World Event → Option GoError × World Event)
      (attempt_Sound : (w : World Event) → Sound w (op w).1)
      (attempt_Q : (w : World Event) → (op w).0 ≡ none → Q (op w).1) where
    abbrev pub Retried : World Event → Option GoError × World Event → Type 0
    Retried w (r, w') = Sound w w' × (r ≡ none → Q w')

    waited_Sound : (n : ℕ) (w : World Event) → Sound w (log (waited n) w)
    unfolding log
    waited_Sound n w = record { extends = more same; safe = λ h. h }

    Retried-trans :
        {u v : World Event} (r : Option GoError × World Event)
        → Sound u v
        → Retried v r
        → Retried u r
    Retried-trans r s t = (Sound-trans s t.0, t.1)

    retry_from-Retried :
        (left attempt : ℕ) (last : Option GoError) (w : World Event)
        → (last ≡ none → left ≢ 0)
        → Retried w (retry_from env ctx op left attempt last w)
    unfolding retry_from
    retry_from-Retried zero attempt last w h = (Sound-refl w, λ e. absurd (h e refl))
    retry_from-Retried (suc left) attempt last w h = elim (Option-cases (op w).0) [
      | inl p ↦ rw (p, retry_from) (attempt_Sound w, λ _. attempt_Q w p)
      | inr (e, p) ↦ elim (Class-cases (classify (some e))) [
        | inl q ↦ rw (p, retry_from, q) (attempt_Sound w, λ z. cc)
        | inr q ↦
            let again =
              Retried-trans _ (Sound-trans (attempt_Sound w) (waited_Sound (2 ^ attempt) (op w).1))
                (retry_from-Retried left (attempt + 1) (some e)
                  (log (waited (2 ^ attempt)) (op w).1) (λ z. cc)) in
            elim (Option-cases (context_error env waiting ctx (op w).1)) [
              | inl c ↦ rw (p, retry_from, q, c) again
              | inr (done, c) ↦ elim (Bool-cases (env.timer_first (op w).1.clock)) [
                | inl t ↦ rw (p, retry_from, q, c, t) again
                | inr t ↦ rw (p, retry_from, q, c, t) (attempt_Sound w, λ z. cc)
              ]
            ]
      ]
    ]

    pub retry_transient-Retried : (w : World Event) → Retried w (retry_transient env ctx op w)
    unfolding retry_transient
    retry_transient-Retried w = retry_from-Retried 3 0 none w (λ _. omega arith)
