-- ===== src/Gravitas/Run.antt =====
-- gravitas/: what a run of the calculation does to the vertices, superstep by superstep.
pub mod Mailbox
pub mod Vertex
pub mod Sending
pub mod Sent
pub mod Counting
pub mod Counters
pub mod Collecting
pub mod Rounds
pub mod Whole
pub mod Done
pub mod Scores
pub mod Amounts
pub mod Exact
pub mod Balance
