-- ===== src/Builder/Walk.antt =====
-- Every walk of the builder keeps its state sound: `_process_stmts`, `_process_one` and the walks that
-- they call, by induction on the statements.
use flawed.Base.{ℕ, ◌+◌, ◌<◌, false, Option, none, some, List, [], arith, ◌==◌, nat_eq, string_eq}
use flawed.Types.{SourceSpan, ExceptHandler}
use flawed.Builder.{
  process_stmts, process_one, process_if, process_else, process_loop_else, process_handlers,
  process_try_body, process_try_else, process_finally, process_cases,
}
use flawed.Builder.Syntax.{
  Stmt, simple_line, simple_suite, if_stmt, while_stmt, for_stmt, try_stmt, try_star, with_stmt,
  match_stmt, definition, Stmts, done, then_stmt, If, if_node, Else, no_else, elif, else_body,
  Orelse, absent, clause, Handlers, no_handlers, handler, Cases, no_cases, case_of,
}
use flawed.Builder.Steps.{process_with, Join, is_wildcard_pattern}
use flawed.Builder.Safe.{IsSource, IsTarget, AllHandlers, AllHandlers-mono, AllBelow, AllBelow-mono}
use flawed.Builder.Rules.{
  Safe, Any, Safe-pure, Safe-then, Safe-bind, Safe-new_block, Safe-add_statement, Safe-add_edge,
  Safe-set_condition,
}
use flawed.Builder.Errors.{Falls, Safe-deferred, Safe-if_joined, Safe-connect}
use flawed.Builder.Parts.{
  IsSource-mono, IsTarget-mono, Fresh-IsSource, Fresh-IsTarget, Falls-mono, Safe-none, Safe-some,
  Safe-elim_option, Safe-process_simple_line,
}
use flawed.Builder.Try.{Safe-enter, Safe-try, IsBody, AllBelow-met}
use flawed.Builder.Clauses.{
  Safe-opaque, Safe-within_budget, Safe-within_chain_budget, Safe-process_loop,
  Safe-exception_edges, Safe-enter_else, Safe-elim_bool,
}

mutual
  unfolding process_with process_stmts process_one process_if process_else process_loop_else
      process_handlers process_try_body process_try_else process_finally process_cases

  pub process_stmts-Safe :
      (n : ℕ) (stmts : Stmts) (depth current : ℕ)
      → 1 < n
      → IsSource n current
      → Safe n (process_stmts stmts depth current 1) Falls
  process_stmts-Safe n done depth current big h = Safe-some n current h
  process_stmts-Safe n (then_stmt span stmt stmts) depth current big h =
      Safe-bind (process_one-Safe n stmt span depth current big h) λ result k le s.
        Safe-elim_option result s (Safe-none k)
          λ next s'. process_stmts-Safe k stmts depth next (omega arith) s'

  process_one-Safe :
      (n : ℕ) (stmt : Stmt) (span : SourceSpan) (depth current : ℕ)
      → 1 < n
      → IsSource n current
      → Safe n (process_one stmt span depth current 1) Falls
  process_one-Safe n (simple_line smalls) span depth current big h =
      Safe-within_budget n span depth current _ h
        (Safe-process_simple_line n span smalls current big h)
  process_one-Safe n (simple_suite smalls) span depth current big h =
      Safe-within_budget n span depth current _ h (Safe-opaque n span current h)
  process_one-Safe n (if_stmt node) span depth current big h =
      Safe-within_budget n span depth current _ h (
        Safe-bind (Safe-new_block n) λ join a la fresh.
          Safe-then
            (process_if-Safe a node span depth current join (omega arith) (IsSource-mono h la)
              (Fresh-IsTarget big fresh))
            λ c lc. Safe-if_joined c join (IsSource-mono (Fresh-IsSource big fresh) lc))
  process_one-Safe n (while_stmt text test body otherwise) span depth current big h =
      Safe-within_budget n span depth current _ h (
        Safe-bind (Safe-new_block n) λ cond a la fresh.
          Safe-then
            (Safe-add_edge a current cond "fallthrough" false (IsSource-mono h la)
              (Fresh-IsTarget big fresh))
            λ c lc. Safe-then (Safe-add_statement c cond test) λ d ld.
              Safe-then (Safe-set_condition d cond text test) λ e le.
                Safe-process_loop e cond _ _ (omega arith)
                  (IsSource-mono (Fresh-IsSource big fresh) (omega arith))
                  (IsTarget-mono (Fresh-IsTarget big fresh) (omega arith))
                  (λ k i lk s. process_stmts-Safe k body (depth + 1) i (omega arith) s)
                  (λ k i lk s.
                    process_loop_else-Safe k otherwise depth cond i (omega arith)
                      (IsSource-mono (Fresh-IsSource big fresh) (omega arith)) s))
  process_one-Safe n (for_stmt text iter target body otherwise) span depth current big h =
      Safe-within_budget n span depth current _ h (
        Safe-bind (Safe-new_block n) λ cond a la fresh.
          Safe-then
            (Safe-add_edge a current cond "fallthrough" false (IsSource-mono h la)
              (Fresh-IsTarget big fresh))
            λ c lc. Safe-then (Safe-add_statement c cond target) λ d ld.
              Safe-then (Safe-set_condition d cond text iter) λ e le.
                Safe-process_loop e cond _ _ (omega arith)
                  (IsSource-mono (Fresh-IsSource big fresh) (omega arith))
                  (IsTarget-mono (Fresh-IsTarget big fresh) (omega arith))
                  (λ k i lk s. process_stmts-Safe k body (depth + 1) i (omega arith) s)
                  (λ k i lk s.
                    process_loop_else-Safe k otherwise depth cond i (omega arith)
                      (IsSource-mono (Fresh-IsSource big fresh) (omega arith)) s))
  process_one-Safe n (try_stmt body hs otherwise finalbody) span depth current big h =
      Safe-within_budget n span depth current _ h (
        Safe-try n finalbody span current _ _ _ _ big h
          (λ k join le t. process_handlers-Safe k hs depth join (omega arith) t)
          (λ k metadata i ids le hi hm hb.
            process_try_body-Safe k body depth metadata i ids (omega arith) hi hm hb)
          (λ k try_block join le hb t.
            process_try_else-Safe k otherwise depth try_block join (omega arith) hb t)
          (λ k finally_block i le hf t.
            process_finally-Safe k finalbody depth finally_block i (omega arith) hf t))
  process_one-Safe n try_star span depth current big h =
      Safe-within_budget n span depth current _ h
        (Safe-then (Safe-deferred n span) λ k le. Safe-opaque k span current (IsSource-mono h le))
  process_one-Safe n (with_stmt body) span depth current big h =
      Safe-within_budget n span depth current _ h (
        Safe-then (Safe-add_statement n current span)
          λ k le. process_stmts-Safe k body (depth + 1) current (omega arith) (IsSource-mono h le))
  process_one-Safe n (match_stmt text subject cases) span depth current big h =
      Safe-within_budget n span depth current _ h (
        Safe-then (Safe-add_statement n current subject) λ a la.
          Safe-then (Safe-set_condition a current text subject) λ c lc.
            Safe-bind (Safe-new_block c) λ join d ld fresh.
              Safe-bind
                (process_cases-Safe d cases depth current join (omega arith)
                  (IsSource-mono h (omega arith)) (Fresh-IsTarget (omega arith) fresh))
                λ last e le s.
                  Safe-then
                    (Safe-connect e last join "false" s
                      (IsTarget-mono (Fresh-IsTarget (omega arith) fresh) le))
                    λ f lf.
                      Safe-if_joined f join
                        (IsSource-mono (Fresh-IsSource (omega arith) fresh) (omega arith)))
  process_one-Safe n definition span depth current big h =
      Safe-within_budget n span depth current _ h (Safe-opaque n span current h)

  process_if-Safe :
      (n : ℕ) (node : If) (span : SourceSpan) (depth condition_block join : ℕ)
      → 1 < n
      → IsSource n condition_block
      → IsTarget n join
      → Safe n (process_if node span depth condition_block join 1) Any
  process_if-Safe n (if_node text test body rest) span depth condition_block join big h t =
      Safe-within_chain_budget n span depth condition_block join _ big h t (
        Safe-then (Safe-add_statement n condition_block test) λ a la.
          Safe-then (Safe-set_condition a condition_block text test) λ c lc.
            Safe-bind (Safe-new_block c) λ true_block d ld fresh.
              Safe-then
                (Safe-add_edge d condition_block true_block "true" false
                  (IsSource-mono h (omega arith)) (Fresh-IsTarget (omega arith) fresh))
                λ e le.
                  Safe-bind
                    (process_stmts-Safe e body (depth + 1) true_block (omega arith)
                      (IsSource-mono (Fresh-IsSource (omega arith) fresh) le))
                    λ true_tail f lf s.
                      Safe-then
                        (Safe-connect f true_tail join "fallthrough" s
                          (IsTarget-mono t (omega arith)))
                        λ g lg.
                          process_else-Safe g rest depth condition_block join (omega arith)
                            (IsSource-mono h (omega arith)) (IsTarget-mono t (omega arith)))

  process_else-Safe :
      (n : ℕ) (rest : Else) (depth condition_block join : ℕ)
      → 1 < n
      → IsSource n condition_block
      → IsTarget n join
      → Safe n (process_else rest depth condition_block join 1) Any
  process_else-Safe n no_else depth condition_block join big h t =
      Safe-add_edge n condition_block join "false" false h t
  process_else-Safe n (elif span node) depth condition_block join big h t =
      Safe-bind (Safe-new_block n) λ next_condition a la fresh.
        Safe-then
          (Safe-add_edge a condition_block next_condition "false" false (IsSource-mono h la)
            (Fresh-IsTarget big fresh))
          λ c lc.
            process_if-Safe c node span (depth + 1) next_condition join (omega arith)
              (IsSource-mono (Fresh-IsSource big fresh) lc) (IsTarget-mono t (omega arith))
  process_else-Safe n (else_body body) depth condition_block join big h t =
      Safe-enter n condition_block join _ big h t
        λ k i le s. process_stmts-Safe k body (depth + 1) i (omega arith) s

  process_loop_else-Safe :
      (n : ℕ) (otherwise : Orelse) (depth cond after_loop : ℕ)
      → 1 < n
      → IsSource n cond
      → IsTarget n after_loop
      → Safe n (process_loop_else otherwise depth cond after_loop 1) Any
  process_loop_else-Safe n absent depth cond after_loop big h t =
      Safe-add_edge n cond after_loop "false" false h t
  process_loop_else-Safe n (clause body) depth cond after_loop big h t =
      Safe-enter n cond after_loop _ big h t
        λ k i le s. process_stmts-Safe k body (depth + 1) i (omega arith) s

  process_handlers-Safe :
      (n : ℕ) (hs : Handlers) (depth : ℕ) (join : Join)
      → 1 < n
      → IsTarget n join.target
      → Safe n (process_handlers hs depth join 1) (λ metadata k. AllHandlers k metadata)
  process_handlers-Safe n no_handlers depth join big t =
      Safe-pure n [] (λ metadata k. AllHandlers k metadata) (λ _ _. tt)
  process_handlers-Safe n (handler types bound body hs) depth join big t =
      Safe-bind (Safe-new_block n) λ hblock a la fresh.
        Safe-bind
          (process_stmts-Safe a body (depth + 1) hblock (omega arith) (Fresh-IsSource big fresh))
          λ htail c lc s.
            Safe-then
              (Safe-connect c htail join.target join.label s (IsTarget-mono t (omega arith)))
              λ d ld.
                Safe-bind
                  (process_handlers-Safe d hs depth join (omega arith)
                    (IsTarget-mono t (omega arith)))
                  λ rest e le all.
                    Safe-pure e _ (λ metadata k. AllHandlers k metadata)
                      (λ k lk. (
                        IsTarget-mono (Fresh-IsTarget big fresh) (omega arith),
                        AllHandlers-mono e k rest lk all,
                      ))

  process_try_body-Safe :
      (n : ℕ) (body : Stmts) (depth : ℕ) (metadata : List ExceptHandler) (try_block : ℕ)
      (ids : List ℕ)
      → 1 < n
      → IsSource n try_block
      → AllHandlers n metadata
      → AllBelow n ids
      → Safe n (process_try_body body depth 1 metadata try_block ids) IsBody
  process_try_body-Safe n done depth metadata try_block ids big h hm hi =
      Safe-pure n _ IsBody (λ k le. (IsSource-mono h le, AllBelow-mono n k ids le hi))
  process_try_body-Safe n (then_stmt span stmt stmts) depth metadata try_block ids big h hm hi =
      Safe-bind (process_one-Safe n stmt span (depth + 1) try_block big h) λ result k le s.
        Safe-elim_option result s
          (Safe-then
            (Safe-exception_edges k try_block metadata (IsSource-mono h le)
              (AllHandlers-mono n k metadata le hm))
            (λ d ld. Safe-pure d _ IsBody (λ e le'. (tt, AllBelow-mono n e ids (omega arith) hi))))
          λ next s'.
            process_try_body-Safe k stmts depth metadata next _ (omega arith) s'
              (AllHandlers-mono n k metadata le hm)
              (AllBelow-met k next ids (next == try_block) s'.below (AllBelow-mono n k ids le hi))

  process_try_else-Safe :
      (n : ℕ) (otherwise : Orelse) (depth : ℕ) (try_block : Option ℕ) (join : Join)
      → 1 < n
      → Falls try_block n
      → IsTarget n join.target
      → Safe n (process_try_else otherwise depth try_block join 1) Falls
  process_try_else-Safe n absent depth try_block join big h t = Safe-none n
  process_try_else-Safe n (clause body) depth try_block join big h t =
      Safe-bind (Safe-new_block n) λ else_block a la fresh.
        Safe-then
          (Safe-enter_else a try_block else_block join (Falls-mono try_block h la)
            (Fresh-IsTarget big fresh) (IsTarget-mono t la))
          λ c lc.
            Safe-bind
              (process_stmts-Safe c body (depth + 1) else_block (omega arith)
                (IsSource-mono (Fresh-IsSource big fresh) lc))
              λ else_tail d ld s.
                Safe-then
                  (Safe-connect d else_tail join.target join.label s
                    (IsTarget-mono t (omega arith)))
                  λ e le.
                    Safe-some e else_block (IsSource-mono (Fresh-IsSource big fresh) (omega arith))

  process_finally-Safe :
      (n : ℕ) (finalbody : Orelse) (depth : ℕ) (finally_block : Option ℕ) (after_try : ℕ)
      → 1 < n
      → Falls finally_block n
      → IsTarget n after_try
      → Safe n (process_finally finalbody depth finally_block after_try 1) Any
  process_finally-Safe n absent depth finally_block after_try big h t =
      Safe-pure n tt Any (λ _ _. tt)
  process_finally-Safe n (clause body) depth none after_try big h t = Safe-pure n tt Any (λ _ _. tt)
  process_finally-Safe n (clause body) depth (some finally_block) after_try big h t =
      Safe-bind (process_stmts-Safe n body (depth + 1) finally_block big h)
        λ fin_tail k le s. Safe-connect k fin_tail after_try "fallthrough" s (IsTarget-mono t le)

  process_cases-Safe :
      (n : ℕ) (cases : Cases) (depth prev_block join : ℕ)
      → 1 < n
      → IsSource n prev_block
      → IsTarget n join
      → Safe n (process_cases cases depth prev_block join 1) Falls
  process_cases-Safe n no_cases depth prev_block join big h t = Safe-some n prev_block h
  process_cases-Safe n (case_of pattern text at guarded body cases) depth prev_block join big h t =
      Safe-bind (Safe-new_block n) λ body_block a la fresh.
        Safe-then
          (Safe-add_edge a prev_block body_block "true" false (IsSource-mono h la)
            (Fresh-IsTarget big fresh))
          λ c lc.
            Safe-bind
              (process_stmts-Safe c body (depth + 1) body_block (omega arith)
                (IsSource-mono (Fresh-IsSource big fresh) lc))
              λ body_tail d ld s.
                Safe-then
                  (Safe-connect d body_tail join "fallthrough" s (IsTarget-mono t (omega arith)))
                  λ e le. Safe-elim_bool (is_wildcard_pattern pattern) (Safe-none e) (
                    Safe-bind (Safe-new_block e) λ next_check f lf fresh'.
                      Safe-then
                        (Safe-add_edge f prev_block next_check "false" false
                          (IsSource-mono h (omega arith)) (Fresh-IsTarget (omega arith) fresh'))
                        λ g lg. Safe-then (Safe-add_statement g next_check at) λ i li.
                          Safe-then (Safe-set_condition i next_check text at) λ j lj.
                            process_cases-Safe j cases depth next_check join (omega arith)
                              (IsSource-mono (Fresh-IsSource (omega arith) fresh') (omega arith))
                              (IsTarget-mono t (omega arith)))
