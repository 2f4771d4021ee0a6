-- ===== src/Kafka/Poller/Handlers.antt =====
-- The consumer as a history of its committer: a handler exists only for a message that was fetched.
use synapse_platform.Prelude.{
  ℕ, ◌≡◌, refl, ap, sym, subst, inl, inr, true, false, ◌==◌, String, Option, none, some,
  Option-cases, Bool-cases, List, [], ◌∷◌, length, All, All-mono, arith,
}
use synapse_platform.Kafka.Committer.{Message, register, complete}
use synapse_platform.Kafka.Committer.Walk.{is_some}
use synapse_platform.Kafka.Committer.History.{
  Action, fetched, acked, first_fetch, IsValid, step, run,
}
use synapse_platform.Kafka.Committer.Tracks.{Covered}
use synapse_platform.Kafka.Committer.Watermark.{run-Tracks, commits-Covered}
use synapse_platform.Kafka.Poller.{
  KafkaMessage, KafkaConsumer, message_fetched, fetch_failed, Decoded, decoded, decode_failed,
  new_consumer, offset_of, register_ack, mark_polled, after_decode, poll_message, handler_of, Event,
  polls, acknowledges, acknowledge, consumer_step, consume,
}

-- The messages of the handlers that were made, and the history of the committer.
unfoldable pub handlers_of : List Event → List Message
handlers_of [] = []
handlers_of (polls (message_fetched m) now ∷ es) = offset_of m ∷ handlers_of es
handlers_of (polls (fetch_failed e) now ∷ es) = handlers_of es
handlers_of (acknowledges n ∷ es) = handlers_of es

abbrev pub also_acked : Option Message → List Action → List Action
also_acked none h = h
also_acked (some m) h = acked m ∷ h

unfoldable pub history_of : List Event → List Action
unfolding handlers_of handler_of
history_of [] = []
history_of (polls (message_fetched m) now ∷ es) = fetched (offset_of m) ∷ history_of es
history_of (polls (fetch_failed e) now ∷ es) = history_of es
history_of (acknowledges n ∷ es) = also_acked (handler_of n (handlers_of es)) (history_of es)

-- The partition of the message was fetched from.
abbrev FetchedIn : List Action → Message → Type 0
FetchedIn h m = is_some (first_fetch m.partition h) ≡ true

fetched_later : (a : Action) (h : List Action) (m : Message) → FetchedIn h m → FetchedIn (a ∷ h) m
unfolding first_fetch
fetched_later (acked n) h m f = f
fetched_later (fetched n) h m f = elim (Option-cases (first_fetch m.partition h)) [
  | inl e ↦ let no : is_some (first_fetch m.partition h) ≡ false = rw (e) refl in absurd (cc)
  | inr (o, e) ↦ rw (first_fetch, e) refl
]

fetched_now : (h : List Action) (m : Message) → FetchedIn (fetched m ∷ h) m
unfolding first_fetch
fetched_now h m = elim (Option-cases (first_fetch m.partition h)) [
  | inl e ↦
      let same : (m.partition == m.partition) ≡ true = ground arith in
      rw (first_fetch, e, same) refl
  | inr (o, e) ↦ rw (first_fetch, e) refl
]

handler_among :
    (P : Message → Type 0) (n : ℕ) (ms : List Message) (m : Message)
    → All P ms
    → handler_of n ms ≡ some m
    → P m
unfolding handler_of
handler_among P n [] m all h = cc
handler_among P n (x ∷ xs) m all h = elim (Bool-cases (n == length xs)) [
  | inl t ↦ let same : x ≡ m = ground arith in subst P same all.0
  | inr f ↦ handler_among P n xs m all.1 (ground arith)
]

made_after :
    (o : Option Message) (h : List Action) (ms : List Message)
    → All (FetchedIn h) ms
    → All (FetchedIn (also_acked o h)) ms
made_after none h ms all = all
made_after (some m) h ms all = All-mono ms (λ x f. fetched_later (acked m) h x f) all

handlers_fetched : (es : List Event) → All (FetchedIn (history_of es)) (handlers_of es)
unfolding history_of handlers_of
handlers_fetched [] = tt
handlers_fetched (polls (message_fetched m) now ∷ es) = (
  fetched_now (history_of es) (offset_of m),
  All-mono (handlers_of es) (λ x f. fetched_later (fetched (offset_of m)) (history_of es) x f)
      (handlers_fetched es),
)
handlers_fetched (polls (fetch_failed e) now ∷ es) = handlers_fetched es
handlers_fetched (acknowledges n ∷ es) =
    made_after (handler_of n (handlers_of es)) (history_of es) (handlers_of es)
      (handlers_fetched es)

still-IsValid :
    (o : Option Message) (h : List Action)
    → ((m : Message) → o ≡ some m → FetchedIn h m)
    → IsValid h
    → IsValid (also_acked o h)
still-IsValid none h f v = v
still-IsValid (some m) h f v = (f m refl, v)

history_of-IsValid : (es : List Event) → IsValid (history_of es)
unfolding history_of
history_of-IsValid [] = tt
history_of-IsValid (polls (message_fetched m) now ∷ es) = history_of-IsValid es
history_of-IsValid (polls (fetch_failed e) now ∷ es) = history_of-IsValid es
history_of-IsValid (acknowledges n ∷ es) =
    still-IsValid (handler_of n (handlers_of es)) (history_of es)
      (λ m h.
        handler_among (FetchedIn (history_of es)) n (handlers_of es) m (handlers_fetched es) h)
      (history_of-IsValid es)

module _ {E : Type 0} (decode : String → Decoded) (itoa : ℕ → String)
    (reader : Message → Option E) where
  -- The consumer has run the history `h` and made the handlers `ms`.
  record Ran (h : List Action) (ms : List Message) (c : KafkaConsumer) : Type 0 where
    ran : run reader h ≡ some c.committer
    made : c.handlers ≡ ms

  acknowledged :
      (o : Option Message) (h : List Action) (ms : List Message) (c : KafkaConsumer)
      → IsValid (also_acked o h)
      → Ran h ms c
      → (d : KafkaConsumer) × (acknowledge decode itoa reader o c ≡ some d)
        × Ran (also_acked o h) ms d
  unfolding acknowledge run
  acknowledged none h ms c v r = (c, refl, r)
  acknowledged (some m) h ms c v r = elim (Option-cases (complete reader m c.committer)) [
    | inl e ↦
        let stopped : run reader (acked m ∷ h) ≡ none = rw (run, r.ran, step, e) refl in
        let (d, running, t) = run-Tracks reader (acked m ∷ h) v in absurd (cc)
    | inr ((k, x), e) ↦ (
      record c { committer = k },
      rw (acknowledge, e) refl,
      record { ran = rw (run, r.ran, step, e) refl; made = r.made },
    )
  ]

  polled-Ran :
      (m : KafkaMessage) (now : ℕ) (h : List Action) (ms : List Message) (c : KafkaConsumer)
      → Ran h ms c
      → Ran
          (fetched (offset_of m) ∷ h)
          (offset_of m ∷ ms)
          (poll_message decode itoa (message_fetched m) now c).consumer
  unfolding poll_message register_ack mark_polled run register
  polled-Ran m now h ms c r =
      let d = register_ack (offset_of m) (mark_polled now c) in
      let after : Ran (fetched (offset_of m) ∷ h) (offset_of m ∷ ms) d = record {
        ran = rw (run, r.ran, step) refl;
        made = ap (λ l. offset_of m ∷ l) r.made;
      } in
      subst (Ran (fetched (offset_of m) ∷ h) (offset_of m ∷ ms))
        (sym (same_consumer m (decode m.value) (length c.handlers) d)) after
    where
      same_consumer :
          (m : KafkaMessage) (x : Decoded) (n : ℕ) (d : KafkaConsumer)
          → (after_decode decode itoa m x n d).consumer ≡ d
      same_consumer m (decoded y) n d = refl
      same_consumer m (decode_failed e) n d = refl

  consumed :
      (start max_stale : ℕ) (es : List Event)
      → (c : KafkaConsumer) × (consume decode itoa reader (new_consumer start max_stale) es
          ≡ some c)
        × Ran (history_of es) (handlers_of es) c
  unfolding consume consumer_step history_of handlers_of new_consumer run
  consumed start max_stale [] =
      (new_consumer start max_stale, refl, record { ran = refl; made = refl })
  consumed start max_stale (polls (message_fetched m) now ∷ es) =
      let (c, e, r) = consumed start max_stale es in
      (_, rw (consume, e) refl, polled-Ran m now (history_of es) (handlers_of es) c r)
  consumed start max_stale (polls (fetch_failed x) now ∷ es) =
      let (c, e, r) = consumed start max_stale es in (c, rw (consume, e) refl, r)
  consumed start max_stale (acknowledges n ∷ es) =
      let (c, e, r) = consumed start max_stale es in
      let (d, done, ran) =
        acknowledged (handler_of n (handlers_of es)) (history_of es) (handlers_of es) c
          (history_of-IsValid (acknowledges n ∷ es)) r in
      let here =
        subst (λ l. acknowledge decode itoa reader (handler_of n l) c ≡ some d) (sym r.made) done in
      (d, rw (consume, e) here, ran)

  -- Whatever is polled, messages that cannot be decoded included, and in whatever order the handlers of the
  -- deliveries are called, also more than once: the consumer never panics, and for every message whose
  -- offset was committed, all the offsets of its partition from the first one fetched on were acknowledged.
  pub consume-Covered :
      (start max_stale : ℕ) (es : List Event)
      → (c : KafkaConsumer) × (consume decode itoa reader (new_consumer start max_stale) es
          ≡ some c)
        × All (Covered (history_of es)) c.committer.commits
  consume-Covered start max_stale es =
      let (c, e, r) = consumed start max_stale es in
      (c, e, commits-Covered reader (history_of es) (history_of-IsValid es) r.ran)
