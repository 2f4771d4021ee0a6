-- ===== src/Ingestor.antt =====
-- internal/ingestor: from a polled message to a stored event, and the acknowledgement of both.
pub mod Errors
pub mod Domains
pub mod Message
pub mod Payload
pub mod Transformer
pub mod Loop
