-- ===== src/Protocol.antt =====
-- The message protocol (src/mutmuas/protocol.py): its constants, the envelope and its bodies, the
-- checks that every message passes, and the JSON form.
pub mod Types
pub mod Envelope
pub mod Codec
pub mod Bodies
pub mod Valid
pub mod RoundTrip
pub mod Reply
