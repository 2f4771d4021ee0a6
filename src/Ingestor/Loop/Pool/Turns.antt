-- ===== src/Ingestor/Loop/Pool/Turns.antt =====
-- A round of each goroutine keeps the trace safe, and what it sends was made from its delivery.
use synapse_platform.Prelude.{
  ◌≡◌, refl, inl, inr, Option, none, some, List, [], All, Option-cases, Memᴰ,
}
use synapse_platform.Ingestor.Errors.{GoError, classify, wrapped}
use synapse_platform.Ingestor.Message.{DeviceMessage, Delivery}
use synapse_platform.Ingestor.Loop.{
  Effect, caller, Environment, World, Transformed, event, failed, context_error, loop_check,
}
use synapse_platform.Ingestor.Loop.Single.{Control, continue, return, poll, transform}
use synapse_platform.Ingestor.Loop.Single.Safety.{
  on_error-Sound, poll-Sound, transform-Sound, transform-mem,
}
use synapse_platform.Ingestor.Loop.Batch.{EventWithDelivery}
use synapse_platform.Ingestor.Loop.Batch.Safety.{IsMade, Made}
use synapse_platform.Ingestor.Loop.Justified.{Sound, Sound-refl, Sound-trans}
use synapse_platform.Ingestor.Loop.Calls.{Class-cases, fail_terminal_and_ack-Sound}
use synapse_platform.Ingestor.Loop.Pool.{
  Turn, of_control, message_of, offer_delivery, after_poll, process_turn, worker_error,
  after_transform, transform_message, transform_turn, own_transform, own_message, own_poll,
  handle_batch_turn, turn_list,
}

-- What a turn leaves: a sound step, and an item, if one is sent, that was made from its delivery.
abbrev pub TurnSafe :
    {Event : Type 0} → World Event → Turn (EventWithDelivery Event) × World Event → Type 0
TurnSafe w (r, w') = Sound w w' × All (IsMade w'.trace) (turn_list r [])

module _ {Event : Type 0} where
  TurnSafe-trans :
      {u v : World Event} (r : Turn (EventWithDelivery Event) × World Event)
      → Sound u v
      → TurnSafe v r
      → TurnSafe u r
  TurnSafe-trans r s t = (Sound-trans s t.0, t.1)

  of_control-Sound :
      (A : Type 0) (w : World Event) (r : Control × World Event)
      → Sound w r.1
      → Sound w (of_control {A = A} r).1
  of_control-Sound A w (continue, v) s = s
  of_control-Sound A w (return, v) s = s

  of_control-TurnSafe :
      (w : World Event) (r : Control × World Event) → Sound w r.1 → TurnSafe w (of_control r)
  of_control-TurnSafe w (continue, v) s = (s, tt)
  of_control-TurnSafe w (return, v) s = (s, tt)

  sent-Made :
      (d : Option Delivery) (m : DeviceMessage) (ev : Event) (t : List (Effect Event))
      → message_of d ≡ some m
      → Memᴰ (Effect.transformed m ev) t
      → Made t ev d
  sent-Made none m ev t e i = tt
  sent-Made (some d) m ev t e i = (m, e, i)

module _ {Event : Type 0} (env : Environment Event) where
  offer-Sound :
      (d : Option Delivery) (m : Option DeviceMessage) (w : World Event)
      → Sound w (offer_delivery env d m w).1
  unfolding offer_delivery
  offer-Sound d none w = Sound-refl w
  offer-Sound d (some m) w = Sound-refl w

  after_poll-Sound :
      (d : Option Delivery) (e : Option GoError) (w : World Event)
      → Sound w (after_poll env d e w).1
  unfolding after_poll
  after_poll-Sound d none w = offer-Sound d (message_of d) w
  after_poll-Sound d (some e) w =
      of_control-Sound _ w _ (on_error-Sound env caller d "process" e 0 w)

  pub process_turn-Sound : (w : World Event) → Sound w (process_turn env w).1
  unfolding process_turn
  process_turn-Sound w = elim (Option-cases (context_error env loop_check caller w)) [
    | inr (x, p) ↦ rw (p, process_turn) (Sound-refl w)
    | inl p ↦
        rw (p, process_turn)
          (Sound-trans (poll-Sound env w)
            (after_poll-Sound (poll env w).0.0 (poll env w).0.1 (poll env w).1))
  ]

  worker_error-TurnSafe :
      (d : Option Delivery) (e : GoError) (w : World Event) → TurnSafe w (worker_error env d e w)
  unfolding worker_error
  worker_error-TurnSafe d e w = elim (Option-cases (context_error env loop_check caller w)) [
    | inr (x, p) ↦ rw (p, worker_error) (Sound-refl w, tt)
    | inl p ↦ elim (Class-cases (classify (some e))) [
      | inl q ↦
          rw (p, worker_error, q)
            (fail_terminal_and_ack-Sound env caller d "transform" (wrapped "worker" e) 0 w, tt)
      | inr q ↦ rw (p, worker_error, q) (Sound-refl w, tt)
    ]
  ]

  after_transform-TurnSafe :
      (d : Option Delivery) (m : DeviceMessage) (r : Transformed Event × World Event)
      → message_of d ≡ some m
      → ((ev : Event) → r.0 ≡ event ev → Memᴰ (Effect.transformed m ev) r.1.trace)
      → TurnSafe r.1 (after_transform env d r)
  unfolding after_transform
  after_transform-TurnSafe d m (event ev, w) e i =
      (Sound-refl w, (sent-Made d m ev w.trace e (i ev refl), tt))
  after_transform-TurnSafe d m (failed x, w) e i = worker_error-TurnSafe d x w

  transform_message-TurnSafe :
      (d : Option Delivery) (m : Option DeviceMessage) (w : World Event)
      → message_of d ≡ m
      → TurnSafe w (transform_message env d m w)
  unfolding transform_message
  transform_message-TurnSafe d none w e = (Sound-refl w, tt)
  transform_message-TurnSafe d (some m) w e =
      TurnSafe-trans _ (transform-Sound env m w)
        (after_transform-TurnSafe d m (transform env m w) e (transform-mem env m w))

  pub transform_turn-TurnSafe :
      (d : Option Delivery) (w : World Event) → TurnSafe w (transform_turn env d w)
  unfolding transform_turn
  transform_turn-TurnSafe d w = transform_message-TurnSafe d (message_of d) w refl

  own_transform-TurnSafe :
      (d : Option Delivery) (m : DeviceMessage) (r : Transformed Event × World Event)
      → message_of d ≡ some m
      → ((ev : Event) → r.0 ≡ event ev → Memᴰ (Effect.transformed m ev) r.1.trace)
      → TurnSafe r.1 (own_transform env d r)
  unfolding own_transform
  own_transform-TurnSafe d m (event ev, w) e i =
      (Sound-refl w, (sent-Made d m ev w.trace e (i ev refl), tt))
  own_transform-TurnSafe d m (failed x, w) e i =
      of_control-TurnSafe w _ (on_error-Sound env caller d "transform" x 0 w)

  own_message-TurnSafe :
      (d : Option Delivery) (m : Option DeviceMessage) (w : World Event)
      → message_of d ≡ m
      → TurnSafe w (own_message env d m w)
  unfolding own_message
  own_message-TurnSafe d none w e = (Sound-refl w, tt)
  own_message-TurnSafe d (some m) w e =
      TurnSafe-trans _ (transform-Sound env m w)
        (own_transform-TurnSafe d m (transform env m w) e (transform-mem env m w))

  own_poll-TurnSafe :
      (d : Option Delivery) (e : Option GoError) (w : World Event) → TurnSafe w (own_poll env d e w)
  unfolding own_poll
  own_poll-TurnSafe d none w = own_message-TurnSafe d (message_of d) w refl
  own_poll-TurnSafe d (some e) w =
      of_control-TurnSafe w _ (on_error-Sound env caller d "process" e 0 w)

  pub handle_batch_turn-TurnSafe : (w : World Event) → TurnSafe w (handle_batch_turn env w)
  unfolding handle_batch_turn
  handle_batch_turn-TurnSafe w = elim (Option-cases (context_error env loop_check caller w)) [
    | inr (x, p) ↦ rw (p, handle_batch_turn) (Sound-refl w, tt)
    | inl p ↦
        rw (p, handle_batch_turn)
          (TurnSafe-trans _ (poll-Sound env w)
            (own_poll-TurnSafe (poll env w).0.0 (poll env w).0.1 (poll env w).1))
  ]
