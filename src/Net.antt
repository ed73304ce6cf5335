-- ===== src/Net.antt =====
-- The network part, zysoft/net/.
pub mod Types
pub mod Buffer
pub mod Connection
pub mod LoopPool
pub mod Address
pub mod Acceptor
pub mod EventLoop
pub mod Log
pub mod Server
pub mod System
pub mod TimerQueue
pub mod Timeouts
pub mod Client
