-- ===== src/EchoServer.antt =====
-- cpp_learning_projects/30dayMakeCppServer/day12: the echo server of the twelfth day, and its client.
pub mod Echo
