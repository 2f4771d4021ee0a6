-- ===== src/Ingestor/Message.antt =====
-- internal/ingestor/message.go, processor.go, fallback_failure_storer.go: what a poll delivers, the
-- check of a raw message, and the stores for messages that failed.
use synapse_platform.Prelude.{
  ℕ, Bool, true, false, String, Option, none, some, List, ◌==◌, if◌then◌else◌, str_eq,
}
use synapse_platform.Ingestor.Errors.{
  GoError, sentinel, wrapped, processor_error, polling_msg, processing_msg, validating_msg,
  nil_message, missing_field_device_id, missing_field_type, missing_field_timestamp,
}

-- A `map[string]string`; nothing here reads it.
abbrev pub Labels : Type 0
Labels = List (String × String)

-- `metrics` holds the JSON text of each value; `none` is the nil map. A time is a number, and 0 is
-- the zero time.
pub record DeviceMessage : Type 0 where
  pub device_id : String
  pub type : String
  pub timestamp : ℕ
  pub metrics : Option Labels
  pub headers : Labels

pub record MessageMetadata : Type 0 where
  pub source : String
  pub headers : Labels
  pub labels : Labels

-- `ack` numbers the handler closure; `none` is a nil handler.
pub record Delivery : Type 0 where
  pub message : Option DeviceMessage
  pub metadata : MessageMetadata
  pub ack : Option ℕ

-- `error_message` is the error whose text is kept.
pub record FailedMessage : Type 0 where
  pub stage : String
  pub error_type : String
  pub error_message : GoError
  pub retry_count : ℕ
  pub message : Option DeviceMessage
  pub metadata : MessageMetadata
  pub failed_at : ℕ

unfoldable pub validate_raw_message : DeviceMessage → Option GoError
validate_raw_message m =
    if str_eq m.device_id ""
    then some (sentinel missing_field_device_id)
    else if str_eq m.type ""
    then some (sentinel missing_field_type)
    else if m.timestamp == 0
    then some (sentinel missing_field_timestamp)
    else none

process_message : Option Delivery → Option DeviceMessage → Option Delivery × Option GoError
process_message d none = (
  d,
  some (processor_error processing_msg "delivery.message" "DeviceMessage" (sentinel nil_message)),
)
process_message d (some m) = elim (validate_raw_message m) [
  | some e ↦ (d, some (processor_error validating_msg "delivery.message" "valid DeviceMessage" e))
  | none ↦ (d, none)
]

abbrev message_of : Option Delivery → Option DeviceMessage
message_of none = none
message_of (some d) = d.message

-- `Processor.ProcessData`, given what `PollMessage` returned.
unfoldable pub process_data : Option Delivery × Option GoError → Option Delivery × Option GoError
unfolding process_message validate_raw_message
process_data (d, some e) = (d, some (processor_error polling_msg "delivery" "Delivery" e))
process_data (d, none) = process_message d (message_of d)

-- `FallbackFailureStorer.StoreFailure` over the two stores: its error, and whether the second one
-- was called.
unfoldable pub fallback_store_failure :
    (FailedMessage → Option GoError)
    → (FailedMessage → Option GoError)
    → FailedMessage
    → Option GoError × Bool
fallback_store_failure primary secondary failed = elim (primary failed) [
  | none ↦ (none, false)
  | some _ ↦ elim (secondary failed) [
    | some e ↦ (some (wrapped "all failure backends unavailable" e), true)
    | none ↦ (none, true)
  ]
]
