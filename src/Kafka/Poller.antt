-- ===== src/Kafka/Poller.antt =====
-- internal/kafka/poller.go: what a poll delivers, and the staleness check. The reader, the decoder of a
-- message and the clock are parameters.
pub mod Handlers
use synapse_platform.Prelude.{
  ℕ, suc, ◌+◌, ◌-◌, Bool, true, false, String, Option, none, some, List, [], ◌∷◌, if◌then◌else◌,
  str_eq, ltb, ◌==◌, length,
}
use synapse_platform.Ingestor.Errors.{
  GoError, other, wrapped, new_transient_error, new_terminal_error,
}
use synapse_platform.Ingestor.Message.{Labels, DeviceMessage, MessageMetadata, Delivery}
use synapse_platform.Kafka.Committer.{
  Message, OffsetCommitter, new_offset_committer, register, complete,
}

-- `kafka.Message`
pub record KafkaMessage : Type 0 where
  pub topic : String
  pub partition : ℕ
  pub offset : ℕ
  pub headers : Labels
  pub value : String

-- `handlers` holds the messages that the handlers made so far are bound to, the latest first; a handler
-- is known by its number, counted from 0.
pub record KafkaConsumer : Type 0 where
  pub committer : OffsetCommitter
  pub handlers : List Message
  pub last_poll : ℕ
  pub max_stale : ℕ

-- What `FetchMessage` returns.
pub data Fetched : Type 0 where
  message_fetched : KafkaMessage → Fetched
  fetch_failed : GoError → Fetched

-- What `json.Unmarshal` of a value returns.
pub data Decoded : Type 0 where
  decoded : DeviceMessage → Decoded
  decode_failed : GoError → Decoded

pub record Polled : Type 0 where
  pub delivery : Option Delivery
  pub error : Option GoError
  pub consumer : KafkaConsumer

unfoldable pub new_consumer : ℕ → ℕ → KafkaConsumer
new_consumer now max_stale = record {
  committer = new_offset_committer;
  handlers = [];
  last_poll = now;
  max_stale = max_stale;
}

abbrev pub offset_of : KafkaMessage → Message
offset_of m = record { partition = m.partition; offset = m.offset }

-- `headers[h.Key] = string(h.Value)`
unfoldable pub set_label : String → String → Labels → Labels
set_label k v [] = (k, v) ∷ []
set_label k v ((j, u) ∷ m) =
    let rest = set_label k v m in if str_eq j k then (k, v) ∷ m else (j, u) ∷ rest

unfoldable pub convert_from : Labels → Labels → Labels
unfolding set_label
convert_from [] made = made
convert_from ((k, v) ∷ hs) made = convert_from hs (set_label k v made)

abbrev pub convert_headers : Labels → Labels
unfolding convert_from
convert_headers hs = convert_from hs []

-- `OffsetCommitter.Ack`: the message is registered and a handler is made.
unfoldable pub register_ack : Message → KafkaConsumer → KafkaConsumer
register_ack m c = record c { committer = register m c.committer; handlers = m ∷ c.handlers }

unfoldable pub mark_polled : ℕ → KafkaConsumer → KafkaConsumer
mark_polled now c = record c { last_poll = now }

module _ (decode : String → Decoded) (itoa : ℕ → String) where
  unfoldable pub kafka_metadata : KafkaMessage → MessageMetadata
  unfolding convert_from
  kafka_metadata m = record {
    source = "kafka";
    headers = convert_headers m.headers;
    labels = ("topic", m.topic) ∷ ("partition", itoa m.partition) ∷ ("offset", itoa m.offset) ∷ [];
  }

  abbrev pub delivery_of : KafkaMessage → Option DeviceMessage → ℕ → Delivery
  delivery_of m message handler = record {
    message = message;
    metadata = kafka_metadata m;
    ack = some handler;
  }

  -- The end of `PollMessage`, once the message is registered.
  unfoldable pub after_decode : KafkaMessage → Decoded → ℕ → KafkaConsumer → Polled
  unfolding kafka_metadata new_terminal_error
  after_decode m (decoded d) handler c = record {
    delivery = some (delivery_of m (some d) handler);
    error = none;
    consumer = c;
  }
  after_decode m (decode_failed e) handler c = record {
    delivery = some (delivery_of m none handler);
    error = new_terminal_error (some (wrapped "decode device message" e));
    consumer = c;
  }

  -- `now` is the time once the message is fetched.
  unfoldable pub poll_message : Fetched → ℕ → KafkaConsumer → Polled
  unfolding after_decode register_ack mark_polled new_transient_error
  poll_message (fetch_failed e) now c = record {
    delivery = none;
    error = new_transient_error (some (wrapped "fetch message" e));
    consumer = c;
  }
  poll_message (message_fetched m) now c =
      after_decode m (decode m.value) (length c.handlers)
        (register_ack (offset_of m) (mark_polled now c))

-- `Check`, given what dialling a broker returned and the time.
unfoldable pub check_consumer : Option GoError → ℕ → KafkaConsumer → Option GoError
check_consumer (some e) now c = some (wrapped "kafka unreachable" e)
check_consumer none now c =
    if ltb c.max_stale (now - c.last_poll) then some (other "consumer stale") else none

-- The message that a handler is bound to.
unfoldable pub handler_of : ℕ → List Message → Option Message
handler_of n [] = none
handler_of n (m ∷ ms) = let earlier = handler_of n ms in if n == length ms then some m else earlier

-- What happens to a consumer: a poll at a time, or the call of a handler that a delivery carries.
pub data Event : Type 0 where
  polls : Fetched → ℕ → Event
  acknowledges : ℕ → Event

module _ {E : Type 0} (decode : String → Decoded) (itoa : ℕ → String)
    (reader : Message → Option E) where
  -- The handler closure; a number that no delivery carries does nothing, and `none` is a panic.
  unfoldable pub acknowledge : Option Message → KafkaConsumer → Option KafkaConsumer
  acknowledge none c = some c
  acknowledge (some m) c = elim (complete reader m c.committer) [
    | none ↦ none
    | some (committer, e) ↦ some (record c { committer = committer })
  ]

  unfoldable pub consumer_step : Event → KafkaConsumer → Option KafkaConsumer
  unfolding poll_message acknowledge handler_of
  consumer_step (polls f now) c = some (poll_message decode itoa f now c).consumer
  consumer_step (acknowledges n) c = acknowledge (handler_of n c.handlers) c

  -- Events stand newest first.
  unfoldable pub consume : KafkaConsumer → List Event → Option KafkaConsumer
  unfolding consumer_step
  consume c [] = some c
  consume c (e ∷ es) = elim (consume c es) [ none ↦ none | some d ↦ consumer_step e d ]
