-- ===== src/Ingestor/Loop/Batch/Safety.antt =====
-- The batcher keeps the trace safe: a batch is acknowledged only when it was stored or put away.
use synapse_platform.Prelude.{
  ℕ, ◌≡◌, refl, ap, sym, Option, none, some, List, [], ◌∷◌, ◌++◌, Memᴰ, Option-cases, inl, inr,
  Bool-cases, All, All-mono, leb, length,
}
use synapse_platform.Ingestor.Errors.{GoError, classify}
use synapse_platform.Ingestor.Message.{DeviceMessage, Delivery}
use synapse_platform.Ingestor.Loop.{
  Effect, transformed, stored, Context, Environment, World, context_error, loop_check, ack,
  retry_transient, max_store_attempts,
}
use synapse_platform.Ingestor.Loop.Single.Safety.{store_data-Sound, store_data-mem}
use synapse_platform.Ingestor.Loop.Batch.{
  EventWithDelivery, Batcher, events_of, store_events, fail_all, ack_all, finish_batch,
  store_batch_with_deliveries, flush_batch_with_deliveries, receive_item, flush,
}
use synapse_platform.Ingestor.Loop.Justified.{
  by_store, AckSafe, Extends, same, more, Sound, Sound-refl, Sound-trans, mem-Extends,
}
use synapse_platform.Ingestor.Loop.Calls.{
  Class-cases, ack-Sound, fail_terminal_and_ack-Sound, retry_transient-Retried,
}

module _ {Event : Type 0} where
  -- The event of an item was made from the message of its delivery.
  abbrev pub Made : List (Effect Event) → Event → Option Delivery → Type 0
  Made t ev none = Unit
  Made t ev (some d) = (m : DeviceMessage) × (d.message ≡ some m) × Memᴰ (transformed m ev) t

  abbrev pub IsMade : List (Effect Event) → EventWithDelivery Event → Type 0
  IsMade t i = Made t i.event i.delivery

  Made-Extends :
      {t u : List (Effect Event)}
      → Extends t u
      → (ev : Event) (d : Option Delivery) → Made t ev d
      → Made u ev d
  Made-Extends x ev none h = tt
  Made-Extends x ev (some d) (m, e, i) = (m, e, mem-Extends x i)

  pub AllMade-Extends :
      {t u : List (Effect Event)}
      → Extends t u
      → (is : List (EventWithDelivery Event)) → All (IsMade t) is
      → All (IsMade u) is
  AllMade-Extends x is h = All-mono is (λ i. Made-Extends x i.event i.delivery) h

  pub All-append :
      (P : EventWithDelivery Event → Type 0) (is : List (EventWithDelivery Event))
      (j : EventWithDelivery Event)
      → All P is
      → P j
      → All P (is ++ j ∷ [])
  All-append P [] j h k = (k, tt)
  All-append P (i ∷ is) j h k = (h.0, All-append P is j h.1 k)

  in_events : (is : List (EventWithDelivery Event)) → All (λ i. Memᴰ i.event (events_of is)) is
  in_events [] = tt
  in_events (i ∷ is) = (Memᴰ.head refl, All-mono is (λ j. Memᴰ.tail) (in_events is))

  -- The batch of a batcher was made from its deliveries, and its trace is safe.
  pub record BatcherSafe (s : Batcher Event) : Type 0 where
    pub made : All (IsMade s.world.trace) s.batch
    pub safe : AckSafe s.world.trace

module _ {Event : Type 0} (env : Environment Event) where
  store_events-Sound : (evs : List Event) (w : World Event) → Sound w (store_events env evs w).1
  unfolding store_events
  store_events-Sound [] w = record { extends = more same; safe = λ h. h }
  store_events-Sound (ev ∷ []) w = store_data-Sound env ev w
  store_events-Sound (ev ∷ ev' ∷ evs) w = record { extends = more same; safe = λ h. h }

  store_events-mem :
      (evs : List Event) (w : World Event)
      → (store_events env evs w).0 ≡ none
      → Memᴰ (stored evs none) (store_events env evs w).1.trace
  unfolding store_events
  store_events-mem [] w e = Memᴰ.head (ap (stored []) (sym e))
  store_events-mem (ev ∷ []) w e = store_data-mem env ev w e
  store_events-mem (ev ∷ ev' ∷ evs) w e = Memᴰ.head (ap (stored (ev ∷ ev' ∷ evs)) (sym e))

  fail_all-Sound :
      (ctx : Context) (e : GoError) (is : List (EventWithDelivery Event)) (w : World Event)
      → Sound w (fail_all env ctx e is w)
  unfolding fail_all
  fail_all-Sound ctx e [] w = Sound-refl w
  fail_all-Sound ctx e (i ∷ is) w =
      Sound-trans
        (fail_terminal_and_ack-Sound env ctx i.delivery "store_batch" e max_store_attempts w)
        (fail_all-Sound ctx e is _)

  ack_one :
      (ctx : Context) (ev : Event) (d : Option Delivery) (evs : List Event) (w : World Event)
      → Made w.trace ev d
      → Memᴰ ev evs
      → Memᴰ (stored evs none) w.trace
      → Sound w (ack env ctx d "store_batch" w)
  unfolding ack
  ack_one ctx ev none evs w h i s = Sound-refl w
  ack_one ctx ev (some d) evs w (m, e, t) i s =
      ack-Sound env ctx d "store_batch" w (by_store {m = m} {ev = ev} e t i s)

  ack_all-Sound :
      (ctx : Context) (is : List (EventWithDelivery Event)) (evs : List Event) (w : World Event)
      → All (IsMade w.trace) is
      → All (λ i. Memᴰ i.event evs) is
      → Memᴰ (stored evs none) w.trace
      → Sound w (ack_all env ctx is w)
  unfolding ack_all
  ack_all-Sound ctx [] evs w h i s = Sound-refl w
  ack_all-Sound ctx (j ∷ js) evs w h i s =
      let first = ack_one ctx j.event j.delivery evs w h.0 i.0 s in
      Sound-trans first (
        ack_all-Sound ctx js evs _ (AllMade-Extends first.extends js h.1) i.1
          (mem-Extends first.extends s))

  finish_batch-Sound :
      (ctx : Context) (is : List (EventWithDelivery Event)) (r : Option GoError × World Event)
      → All (IsMade r.1.trace) is
      → (r.0 ≡ none → Memᴰ (stored (events_of is) none) r.1.trace)
      → Sound r.1 (finish_batch env ctx is r).1
  unfolding finish_batch
  finish_batch-Sound ctx is (none, w) h s =
      ack_all-Sound ctx is (events_of is) w h (in_events is) (s refl)
  finish_batch-Sound ctx is (some e, w) h s =
      elim (Option-cases (context_error env loop_check ctx w)) [
        | inr (x, p) ↦ rw (p, finish_batch) (Sound-refl w)
        | inl p ↦ elim (Class-cases (classify (some e))) [
          | inl q ↦ rw (p, finish_batch, q) (fail_all-Sound ctx e is w)
          | inr q ↦ rw (p, finish_batch, q) (Sound-refl w)
        ]
      ]

  pub flush-Sound :
      (ctx : Context) (is : List (EventWithDelivery Event)) (w : World Event)
      → All (IsMade w.trace) is
      → Sound w (flush_batch_with_deliveries env ctx is w)
  unfolding flush_batch_with_deliveries store_batch_with_deliveries
  flush-Sound ctx [] w h = Sound-refl w
  flush-Sound ctx (i ∷ is) w h =
      let evs = events_of (i ∷ is) in
      let (s, q) =
        retry_transient-Retried env (λ v. Memᴰ (stored evs none) v.trace) ctx (store_events env evs)
          (store_events-Sound evs) (store_events-mem evs) w in
      Sound-trans s (
        finish_batch-Sound ctx (i ∷ is) (retry_transient env ctx (store_events env evs) w)
          (AllMade-Extends s.extends (i ∷ is) h) q)

  pub flush-Safe :
      (ctx : Context) (s : Batcher Event) → BatcherSafe s → BatcherSafe (flush env ctx s)
  unfolding flush
  flush-Safe ctx s h = record {
    made = tt;
    safe = (flush-Sound ctx s.batch s.world h.made).safe h.safe;
  }

  pub flush-Extends :
      (ctx : Context) (s : Batcher Event)
      → BatcherSafe s
      → Extends s.world.trace (flush env ctx s).world.trace
  unfolding flush
  flush-Extends ctx s h = (flush-Sound ctx s.batch s.world h.made).extends

  pub receive_item-Safe :
      (size : ℕ) (ctx : Context) (i : EventWithDelivery Event) (s : Batcher Event)
      → IsMade s.world.trace i
      → BatcherSafe s
      → BatcherSafe (receive_item env size ctx i s)
  unfolding receive_item
  receive_item-Safe size ctx i s j h =
      let grown = All-append (IsMade s.world.trace) s.batch i h.made j in
      elim (Bool-cases (leb size (length (s.batch ++ i ∷ [])))) [
        | inl p ↦ rw p (record {
          made = tt;
          safe = (flush-Sound ctx (s.batch ++ i ∷ []) s.world grown).safe h.safe;
        })
        | inr p ↦ rw p (record { made = grown; safe = h.safe })
      ]

  pub receive_item-Extends :
      (size : ℕ) (ctx : Context) (i : EventWithDelivery Event) (s : Batcher Event)
      → IsMade s.world.trace i
      → BatcherSafe s
      → Extends s.world.trace (receive_item env size ctx i s).world.trace
  unfolding receive_item
  receive_item-Extends size ctx i s j h =
      let grown = All-append (IsMade s.world.trace) s.batch i h.made j in
      elim (Bool-cases (leb size (length (s.batch ++ i ∷ [])))) [
        | inl p ↦ rw p ((flush-Sound ctx (s.batch ++ i ∷ []) s.world grown).extends)
        | inr p ↦ rw p same
      ]
