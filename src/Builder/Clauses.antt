-- ===== src/Builder/Clauses.antt =====
-- Rules for the tests of the depth budget, for loops, and for the clauses of `try`.
use flawed.Base.{
  ℕ, ◌≤◌, ◌<◌, inl, inr, Bool, true, false, Option, none, some, List, [], ◌∷◌, arith, ltb,
  if◌then◌else◌, Bool-cases, nat_eq, string_eq,
}
use flawed.Types.{SourceSpan, ExceptHandler}
use flawed.Builder.Syntax.{Orelse, absent, clause}
use flawed.Builder.State.{Builder, M}
use flawed.Builder.Steps.{
  exception_edges, Join, complete_try, enter_else, try_join, within_budget, within_chain_budget,
  opaque_stmt, process_loop,
}
use flawed.Builder.Safe.{IsSource, IsTarget, AllHandlers, AllHandlers-mono}
use flawed.Builder.Rules.{
  Safe, Any, Safe-pure, Safe-then, Safe-bind, Safe-new_block, Safe-add_statement, Safe-add_edge,
}
use flawed.Builder.Errors.{
  Falls, Safe-degrade, Safe-in_loop, Safe-if_joined, Safe-connect, Safe-remove_edge,
}
use flawed.Builder.Parts.{IsSource-mono, IsTarget-mono, Fresh-IsSource, Fresh-IsTarget, Safe-some}

pub Safe-test :
    {A : Type 0} (n : ℕ) (test : Builder → Bool) (m k : M A) (Q : A → ℕ → Type 0)
    → Safe n m Q
    → Safe n k Q
    → Safe n (λ b. if test b then m b else k b) Q
Safe-test n test m k Q p q = record {
  at = λ b s le. elim (Bool-cases (test b)) [
    | inl holds ↦ rw holds (p.at b s le)
    | inr fails ↦ rw fails (q.at b s le)
  ];
}

pub Safe-elim_bool :
    {B : Type 0} {n : ℕ} (test : Bool) {y z : M B} {R : B → ℕ → Type 0}
    → Safe n y R
    → Safe n z R
    → Safe n (elim test [ true ↦ y | false ↦ z ]) R
Safe-elim_bool true p q = p
Safe-elim_bool false p q = q

pub Safe-opaque :
    (n : ℕ) (span : SourceSpan) (current : ℕ)
    → IsSource n current
    → Safe n (opaque_stmt span current) Falls
unfolding opaque_stmt
Safe-opaque n span current h =
    Safe-then (Safe-add_statement n current span) λ k le. Safe-some k current (IsSource-mono h le)

pub Safe-within_budget :
    (n : ℕ) (span : SourceSpan) (depth current : ℕ) (m : M (Option ℕ))
    → IsSource n current
    → Safe n m Falls
    → Safe n (within_budget span depth current m) Falls
unfolding within_budget
Safe-within_budget n span depth current m h p =
    Safe-test n (λ b. ltb b.depth_budget depth) _ m Falls
      (Safe-bind (Safe-degrade n current span h) λ tail k le s. Safe-some k tail s) p

pub Safe-within_chain_budget :
    (n : ℕ) (span : SourceSpan) (depth condition_block join : ℕ) (m : M (Unit {0}))
    → 1 < n
    → IsSource n condition_block
    → IsTarget n join
    → Safe n m Any
    → Safe n (within_chain_budget span depth condition_block join m) Any
unfolding within_chain_budget
Safe-within_chain_budget n span depth condition_block join m big h ht p =
    Safe-test n (λ b. ltb b.depth_budget depth) _ m Any
      (Safe-bind (Safe-new_block n) λ degraded a la fresh.
        Safe-then
          (Safe-add_edge a condition_block degraded "false" false (IsSource-mono h la)
            (Fresh-IsTarget big fresh))
          λ c lc.
            Safe-bind (Safe-degrade c degraded span (IsSource-mono (Fresh-IsSource big fresh) lc))
              λ tail d ld s.
                Safe-add_edge d tail join "fallthrough" false s (IsTarget-mono ht (omega arith)))
      p

pub Safe-process_loop :
    (n cond : ℕ) (walk_body : ℕ → M (Option ℕ)) (walk_else : ℕ → M (Unit {0}))
    → 1 < n
    → IsSource n cond
    → IsTarget n cond
    → ((k i : ℕ) → n ≤ k → IsSource k i → Safe k (walk_body i) Falls)
    → ((k i : ℕ) → n ≤ k → IsTarget k i → Safe k (walk_else i) Any)
    → Safe n (process_loop cond walk_body walk_else) Falls
unfolding process_loop
Safe-process_loop n cond walk_body walk_else big h ht pb pe =
    Safe-bind (Safe-new_block n) λ after_loop a la fresh.
      Safe-bind (Safe-new_block a) λ body_block c lc fresh'.
        Safe-then
          (Safe-add_edge c cond body_block "true" false (IsSource-mono h (omega arith))
            (Fresh-IsTarget (omega arith) fresh'))
          λ d ld.
            Safe-bind
              (Safe-in_loop d cond after_loop (walk_body body_block) Falls
                (IsTarget-mono ht (omega arith))
                (IsTarget-mono (Fresh-IsTarget big fresh) (omega arith))
                (pb d body_block (omega arith)
                  (IsSource-mono (Fresh-IsSource (omega arith) fresh') ld)))
              λ body_tail e le s.
                Safe-then (Safe-connect e body_tail cond "back" s (IsTarget-mono ht (omega arith)))
                  λ f lf.
                    Safe-then
                      (pe f after_loop (omega arith)
                        (IsTarget-mono (Fresh-IsTarget big fresh) (omega arith)))
                      λ g lg.
                        Safe-if_joined g after_loop
                          (IsSource-mono (Fresh-IsSource big fresh) (omega arith))

-- -- clauses of `try` ----------------------------------------------

pub Safe-exception_edges :
    (n try_block : ℕ) (hs : List ExceptHandler)
    → IsSource n try_block
    → AllHandlers n hs
    → Safe n (exception_edges try_block hs) Any
unfolding exception_edges
Safe-exception_edges n try_block [] h a = Safe-pure n tt Any (λ _ _. tt)
Safe-exception_edges n try_block (x ∷ hs) h a =
    Safe-then (Safe-add_edge n try_block x.entry_block_id "exception" true h a.0) λ k le.
      Safe-exception_edges k try_block hs (IsSource-mono h le) (AllHandlers-mono n k hs le a.1)

pub Safe-complete_try :
    (n : ℕ) (try_block : Option ℕ) (hs : List ExceptHandler) (join : Join)
    → Falls try_block n
    → AllHandlers n hs
    → IsTarget n join.target
    → Safe n (complete_try try_block hs join) Any
unfolding complete_try
Safe-complete_try n none hs join h a t = Safe-pure n tt Any (λ _ _. tt)
Safe-complete_try n (some try_block) hs join h a t =
    Safe-then (Safe-exception_edges n try_block hs h a) λ k le.
      Safe-add_edge k try_block join.target join.label false (IsSource-mono h le)
        (IsTarget-mono t le)

pub Safe-enter_else :
    (n : ℕ) (try_block : Option ℕ) (else_block : ℕ) (join : Join)
    → Falls try_block n
    → IsTarget n else_block
    → IsTarget n join.target
    → Safe n (enter_else try_block else_block join) Any
unfolding enter_else
Safe-enter_else n none else_block join h e t = Safe-pure n tt Any (λ _ _. tt)
Safe-enter_else n (some try_block) else_block join h e t =
    Safe-then (Safe-remove_edge n try_block join.target join.label h t) λ k le.
      Safe-add_edge k try_block else_block "no_exception" false (IsSource-mono h le)
        (IsTarget-mono e le)

-- the join of a `try` may be entered, and its `finally` block is one that control may leave
abbrev pub IsJoin : Option ℕ × Join → ℕ → Type 0
IsJoin p k = Falls p.0 k × IsTarget k p.1.target

pub Safe-try_join :
    (n : ℕ) (finalbody : Orelse) (after_try : ℕ)
    → 1 < n
    → IsTarget n after_try
    → Safe n (try_join finalbody after_try) IsJoin
unfolding try_join
Safe-try_join n absent after_try big t = Safe-pure n _ IsJoin (λ k le. (tt, IsTarget-mono t le))
Safe-try_join n (clause body) after_try big t =
    Safe-bind (Safe-new_block n) λ finally_block a la fresh. Safe-pure a _ IsJoin (λ k le.
      (IsSource-mono (Fresh-IsSource big fresh) le, IsTarget-mono (Fresh-IsTarget big fresh) le))
