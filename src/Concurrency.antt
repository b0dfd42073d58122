-- ===== src/Concurrency.antt =====
-- CppConcurrencyProgramming/: the programs there that keep a state of their own. Each thread's turns stand as
-- steps, taken in any order.
pub mod Workers
mod Tests
