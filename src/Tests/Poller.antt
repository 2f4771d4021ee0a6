-- ===== src/Tests/Poller.antt =====
-- Two messages of a partition, of which the second cannot be decoded and is acknowledged first.
use synapse_platform.Prelude.{
  ℕ, ◌≡◌, refl, str_eq, if◌then◌else◌, String, Option, none, some, List, [], ◌∷◌, All,
}
use synapse_platform.Prelude.Table.{lookup, insert, delete}
use synapse_platform.Ingestor.Errors.{other, new_terminal_error, new_transient_error}
use synapse_platform.Kafka.Committer.{Message, new_offset_committer, register}
use synapse_platform.Kafka.Committer.Tracks.{Covered}
use synapse_platform.Kafka.Poller.{
  KafkaMessage, KafkaConsumer, message_fetched, Decoded, decoded, decode_failed, new_consumer,
  register_ack, mark_polled, after_decode, poll_message, Event, polls, acknowledges, consume,
  kafka_metadata, set_label, convert_from,
}
use synapse_platform.Kafka.Poller.Handlers.{history_of, consume-Covered}

program : Unit {0}
unfolding lookup insert delete new_terminal_error new_transient_error new_offset_committer register
    register_ack mark_polled after_decode poll_message kafka_metadata set_label convert_from
    new_consumer
program = tt

abbrev message : ℕ → String → KafkaMessage
message offset value = record {
  topic = "t";
  partition = 0;
  offset = offset;
  headers = ("k", "a") ∷ ("k", "b") ∷ [];
  value = value;
}

abbrev decode : String → Decoded
decode value =
    if str_eq value "{}"
    then decoded (record {
      device_id = "d";
      type = "ev_charger";
      timestamp = 1;
      metrics = none;
      headers = [];
    })
    else decode_failed (other "no JSON")

abbrev reader : Message → Option String
reader m = none

-- A message that cannot be decoded is delivered with its handler and a terminal error.
run_undecodable :
    (poll_message decode
      (λ n. "7")
      (message_fetched (message 7 ""))
      5
      (new_consumer 0 60)).consumer.handlers
    ≡ record { partition = 0; offset = 7 } ∷ []
unfolding program
run_undecodable = refl

abbrev happened : List Event
happened =
    acknowledges 0
    ∷ acknowledges 1
    ∷ polls (message_fetched (message 8 "")) 6
    ∷ polls (message_fetched (message 7 "{}")) 5
    ∷ []

consume-Covered_example :
    (c : KafkaConsumer) × (consume decode (λ n. "7") reader (new_consumer 0 60) happened ≡ some c)
    × All (Covered (history_of happened)) c.committer.commits
consume-Covered_example = consume-Covered decode (λ n. "7") reader 0 60 happened
