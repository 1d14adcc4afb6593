-- ===== src/Predicates.antt =====
-- Provider predicates, src/flawed/_semantic/_predicate_eval.py, over the type facts of
-- src/flawed/_index/_type_enrichment.py.
pub mod Facts
pub mod Eval
pub mod Sound
pub mod Gaps
pub mod Refine
mod Tests
