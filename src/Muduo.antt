-- ===== src/Muduo.antt =====
-- cpp_learning_projects/muduo-mgkl: a network library in the style of muduo.
pub mod Buffer
pub mod Channel
pub mod Poller
pub mod EventLoop
pub mod TcpConnection
pub mod LoopThread
pub mod ThreadPool
pub mod Acceptor
pub mod Server
