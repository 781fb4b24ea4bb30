-- ===== src/Env/Codec.antt =====
-- args_stack.rs, `I32Convertible` and the encoding of a result: what a codec promises, the codecs of
-- the single types, and `RetEncode` and `RetDecode`.
pub mod Interface
pub mod Ints
pub mod Enums
pub mod Return
