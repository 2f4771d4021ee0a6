-- ===== src/Ingestor/Loop/Justified.antt =====
-- When a delivery may be acknowledged, and traces in which every acknowledgement is justified.
use synapse_platform.Prelude.{◌≡◌, ◌∙◌, Option-cases, inl, inr, none, some, List, [], ◌∷◌, Memᴰ}
use synapse_platform.Ingestor.Message.{DeviceMessage, Delivery, FailedMessage}
use synapse_platform.Ingestor.Loop.{
  Effect, polled, transformed, refused, stored, failure_stored, acked, waited, World,
}

module _ {Event : Type 0} where
  -- The event made from the message is in a list of events that was stored, or the message itself
  -- is in failure storage. Of a delivery without a message, whose payload could not be decoded, only
  -- the metadata is in failure storage.
  pub data Justified (d : Delivery) (t : List (Effect Event)) : Type 0 where
    by_store :
        {m : DeviceMessage} {ev : Event} {evs : List Event}
        → d.message ≡ some m
        → Memᴰ (transformed m ev) t
        → Memᴰ ev evs
        → Memᴰ (stored evs none) t
        → Justified d t
    by_failure :
        {m : DeviceMessage} {f : FailedMessage}
        → d.message ≡ some m
        → f.message ≡ some m
        → f.metadata ≡ d.metadata
        → Memᴰ (failure_stored f none) t
        → Justified d t
    by_metadata :
        {f : FailedMessage}
        → d.message ≡ none
        → f.message ≡ none
        → f.metadata ≡ d.metadata
        → Memᴰ (failure_stored f none) t
        → Justified d t

  -- At each acknowledgement its delivery was justified by what came before it.
  abbrev pub AckSafe : List (Effect Event) → Type 0
  AckSafe [] = Unit
  AckSafe (acked d r ∷ t) = Justified d t × AckSafe t
  AckSafe (polled d e ∷ t) = AckSafe t
  AckSafe (transformed m ev ∷ t) = AckSafe t
  AckSafe (refused m e ∷ t) = AckSafe t
  AckSafe (stored evs e ∷ t) = AckSafe t
  AckSafe (failure_stored f e ∷ t) = AckSafe t
  AckSafe (waited n ∷ t) = AckSafe t

  pub data Extends (t : List (Effect Event)) : List (Effect Event) → Type 0 where
    same : Extends t t
    more : {e : Effect Event} {u : List (Effect Event)} → Extends t u → Extends t (e ∷ u)

  pub Extends-trans : {s t u : List (Effect Event)} → Extends s t → Extends t u → Extends s u
  Extends-trans h same = h
  Extends-trans h (more k) = more (Extends-trans h k)

  pub mem-Extends :
      {e : Effect Event} {t u : List (Effect Event)} → Extends t u → Memᴰ e t → Memᴰ e u
  mem-Extends same m = m
  mem-Extends (more k) m = Memᴰ.tail (mem-Extends k m)

  pub Justified-Extends :
      {d : Delivery} {t u : List (Effect Event)} → Extends t u → Justified d t → Justified d u
  Justified-Extends x (by_store e m i s) = by_store e (mem-Extends x m) i (mem-Extends x s)
  Justified-Extends x (by_failure g e m s) = by_failure g e m (mem-Extends x s)
  Justified-Extends x (by_metadata g e m s) = by_metadata g e m (mem-Extends x s)

  -- A record with what the delivery has justifies it, with a message or without.
  pub failure-Justified :
      {d : Delivery} {f : FailedMessage} {t : List (Effect Event)}
      → f.message ≡ d.message
      → f.metadata ≡ d.metadata
      → Memᴰ (failure_stored f none) t
      → Justified d t
  failure-Justified {d} e m s = elim (Option-cases d.message) [
    | inl lost ↦ by_metadata lost (e ∙ lost) m s
    | inr (q, there) ↦ by_failure there (e ∙ there) m s
  ]

  -- From one world to a later one: the trace grows, and stays safe.
  pub record Sound (w w' : World Event) : Type 0 where
    pub extends : Extends w.trace w'.trace
    pub safe : AckSafe w.trace → AckSafe w'.trace

  pub Sound-refl : (w : World Event) → Sound w w
  Sound-refl w = record { extends = same; safe = λ h. h }

  pub Sound-trans : {u v w : World Event} → Sound u v → Sound v w → Sound u w
  Sound-trans a b = record {
    extends = Extends-trans a.extends b.extends;
    safe = λ h. b.safe (a.safe h);
  }
