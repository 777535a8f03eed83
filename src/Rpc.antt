-- ===== src/Rpc.antt =====
-- txgraphapi/ and scorestoreapi/: the stores behind gRPC, which is the transport's and a parameter.
pub mod Streams
pub mod Words
mod Examples
pub mod TxGraph
pub mod ScoreStore
