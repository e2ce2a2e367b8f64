-- ===== src/JsonParser.antt =====
-- src/json_parser.cpp
pub mod Binary
pub mod Numbers
pub mod Encode
pub mod Decode
pub mod Safety
pub mod Stream
pub mod RoundTrip
