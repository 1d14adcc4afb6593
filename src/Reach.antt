-- ===== src/Reach.antt =====
-- Walks in a graph given by its successor lists, which is what the queries of
-- src/flawed/_index/_graphs.py and src/flawed/_semantic/_cfgview.py search.
pub mod Bfs
pub mod Closure
pub mod HasPath
use flawed.Base.{ℕ, zero, suc, ◌≡◌, Bool, true, ◌||◌, List, Eq, ◌==◌, contains}

module _ {A : Type 0} ⦃e : Eq A⦄ (succ : A → List A) where
  -- The walks from `s`, along successor lists.
  pub data Walk (s : A) : A → Type 0 where
    here : Walk s s
    step : {u v : A} → Walk s u → contains (succ u) v ≡ true → Walk s v
