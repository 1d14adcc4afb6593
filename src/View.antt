-- ===== src/View.antt =====
-- Control-flow questions at public locations, src/flawed/_semantic/_cfgview.py, as a client of the graph.
pub mod Control
pub mod Arms
pub mod Search
pub mod Reached
pub mod Across
mod Tests
