-- ===== src/Engine.antt =====
-- The message engine of the package iso8583: values and field definitions (value.go, schema.go,
-- codec_iface.go), messages (message.go), and the codec of whole messages (codec.go).
pub mod Types
pub mod Message
pub mod Codec
pub mod Fields
pub mod Loops
pub mod Presence
pub mod RoundTrip
pub mod Forward
pub mod Built
pub mod Validate
pub mod Parse
