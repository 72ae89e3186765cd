-- ===== src/Codec.antt =====
-- The package codec/: the wire format of CoinNews payloads. A byte slice, a fixed byte array and
-- a Go string are all lists of bytes (`Bytes`); the lengths and the range of the bytes are
-- hypotheses or proved.
pub mod Types
pub mod Varint
pub mod Tlv
pub mod Hex
pub mod ItemId
pub mod Crypto
pub mod Sign
pub mod Message
pub mod Encode
