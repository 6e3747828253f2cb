-- ===== src/Envelope.antt =====
-- The envelope that daemons exchange (proto/tailbus/v1/messages.proto). Payloads and keys are
-- texts.
use tailbus.Base.{ℕ, String, Bool, true, false}

pub data EnvelopeType : Type 0 where
  unspecified message session_open session_resolve ack : EnvelopeType

abbrev pub is_ack : EnvelopeType → Bool
is_ack ack = true
is_ack _ = false

pub record Envelope : Type 0 where
  pub message_id : String
  pub session_id : String
  pub from_handle : String
  pub to_handle : String
  pub payload : String
  pub content_type : String
  pub sent_at_unix : ℕ
  pub type : EnvelopeType
  pub trace_id : String
  pub sequence : ℕ
  pub ack_id : String
