-- ===== src/Deps.antt =====
-- What the crates take from third parties, as interfaces: mlua, tokio's channels, the delay queue of
-- tokio-util, the future set of futures-util and the binary heap, with the documented behaviour
-- that is relied on.
pub mod Mlua
pub mod Channel
pub mod DelayQueue
pub mod Futures
pub mod BinaryHeap
pub mod Runtime
pub mod Lemmas
pub mod SampleDelays
pub mod Samples
pub mod SampleHeap
