-- ===== src/Algorithm.antt =====
-- Algorithm/: routines on arrays and lists, each as its loops run. An `int` that is only compared
-- stands as its distance from the least `int`, which keeps the order.
pub mod Sort
pub mod Cycle
pub mod TwoPointers
pub mod Circuit
pub mod Dijkstra
pub mod Courses
pub mod Subset
pub mod Merge
mod Tests
