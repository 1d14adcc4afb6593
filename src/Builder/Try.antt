-- ===== src/Builder/Try.antt =====
-- The rule for the `try` statement, from rules for the walks of its clauses, and the rule for a block on
-- a false branch.
use flawed.Base.{
  ℕ, ◌≤◌, ◌<◌, Bool, true, false, Option, none, some, List, [], ◌∷◌, ◌++◌, arith, if◌then◌else◌,
  nat_eq, string_eq,
}
use flawed.Types.{SourceSpan, ExceptHandler}
use flawed.Builder.Syntax.{Orelse}
use flawed.Builder.Steps.{
  record_region, try_join, complete_try, TryBody, Join, try_join, complete_try, record_region,
}
use flawed.Builder.State.{M, ◌>>=◌, ◌>>◌, new_block, add_edge, if_joined, connect}
use flawed.Builder.Safe.{
  IsSource, IsTarget, AllHandlers, AllHandlers-mono, AllBelow, AllBelow-mono, OptionBelow,
}
use flawed.Builder.Rules.{Safe, Any, Safe-then, Safe-bind, Safe-new_block, Safe-add_edge}
use flawed.Builder.Errors.{Falls, Safe-if_joined, Safe-connect, Safe-record_region}
use flawed.Builder.Parts.{IsSource-mono, IsTarget-mono, Fresh-IsSource, Fresh-IsTarget, Falls-mono}
use flawed.Builder.Clauses.{Safe-complete_try, IsJoin, Safe-try_join}

-- the blocks of a `try` body
abbrev pub IsBody : TryBody → ℕ → Type 0
IsBody met k = Falls met.try_block k × AllBelow k met.body_ids

AllBelow-append_one : (n i : ℕ) (is : List ℕ) → i < n → AllBelow n is → AllBelow n (is ++ i ∷ [])
AllBelow-append_one n i [] h a = (h, tt)
AllBelow-append_one n i (j ∷ is) h a = (a.0, AllBelow-append_one n i is h a.1)

pub AllBelow-met :
    (n i : ℕ) (is : List ℕ) (same : Bool)
    → i < n
    → AllBelow n is
    → AllBelow n (if same then is else is ++ i ∷ [])
AllBelow-met n i is true h a = a
AllBelow-met n i is false h a = AllBelow-append_one n i is h a

Falls-below : (n : ℕ) (o : Option ℕ) → Falls o n → OptionBelow n o
Falls-below n none h = tt
Falls-below n (some i) h = h.below

-- a new block on the false branch, whose walk flows to `join`
pub Safe-enter :
    (n cond join : ℕ) (walk : ℕ → M (Option ℕ))
    → 1 < n
    → IsSource n cond
    → IsTarget n join
    → ((k i : ℕ) → n ≤ k → IsSource k i → Safe k (walk i) Falls)
    → Safe n
        (do
          block ← new_block
          add_edge cond block "false"
          tail ← walk block
          connect tail join "fallthrough")
        Any
Safe-enter n cond join walk big h t p = Safe-bind (Safe-new_block n) λ block a la fresh.
    Safe-then
      (Safe-add_edge a cond block "false" false (IsSource-mono h la) (Fresh-IsTarget big fresh))
      λ c lc.
        Safe-bind (p c block (omega arith) (IsSource-mono (Fresh-IsSource big fresh) lc))
          λ tail d ld s. Safe-connect d tail join "fallthrough" s (IsTarget-mono t (omega arith))

-- what follows the body of a `try`
Safe-try_rest :
    (n : ℕ) (met : TryBody) (metadata : List ExceptHandler) (finally_block : Option ℕ) (join : Join)
    (span : SourceSpan) (after_try : ℕ) (walk_else : Option ℕ → Join → M (Option ℕ))
    (walk_finally : Option ℕ → ℕ → M (Unit {0}))
    → IsBody met n
    → AllHandlers n metadata
    → IsJoin (finally_block, join) n
    → IsSource n after_try
    → IsTarget n after_try
    → ((k : ℕ) (b : Option ℕ) (j : Join)
        → n ≤ k
        → Falls b k
        → IsTarget k j.target
        → Safe k (walk_else b j) Falls)
    → ((k : ℕ) (b : Option ℕ) (i : ℕ)
        → n ≤ k
        → Falls b k
        → IsTarget k i
        → Safe k (walk_finally b i) Any)
    → Safe n
        (do
          complete_try met.try_block metadata join
          else_block ← walk_else met.try_block join
          walk_finally finally_block after_try
          record_region (record {
            try_body_block_ids = met.body_ids;
            handlers = metadata;
            finally_block_id = finally_block;
            else_block_id = else_block;
            location = span;
          })
          if_joined after_try)
        Falls
Safe-try_rest n met metadata finally_block join span after_try walk_else walk_finally hb hm hj hs ht
      pe pf =
    Safe-then (Safe-complete_try n met.try_block metadata join hb.0 hm hj.1) λ a la.
      Safe-bind
        (pe a met.try_block join la (Falls-mono met.try_block hb.0 la) (IsTarget-mono hj.1 la))
        λ else_block c lc he.
          Safe-then
            (pf c finally_block after_try (omega arith)
              (Falls-mono finally_block hj.0 (omega arith)) (IsTarget-mono ht (omega arith)))
            λ d ld.
              Safe-then
                (Safe-record_region d _ (record {
                  body = AllBelow-mono n d met.body_ids (omega arith) hb.1;
                  entries = AllHandlers-mono n d metadata (omega arith) hm;
                  finally_block =
                      Falls-below d finally_block (Falls-mono finally_block hj.0 (omega arith));
                  else_block = Falls-below d else_block (Falls-mono else_block he (omega arith));
                }))
                λ e le. Safe-if_joined e after_try (IsSource-mono hs (omega arith))

pub Safe-try :
    (n : ℕ) (finalbody : Orelse) (span : SourceSpan) (current : ℕ)
    (walk_handlers : Join → M (List ExceptHandler))
    (walk_body : List ExceptHandler → ℕ → List ℕ → M TryBody)
    (walk_else : Option ℕ → Join → M (Option ℕ)) (walk_finally : Option ℕ → ℕ → M (Unit {0}))
    → 1 < n
    → IsSource n current
    → ((k : ℕ) (j : Join)
        → n ≤ k
        → IsTarget k j.target
        → Safe k (walk_handlers j) (λ hs l. AllHandlers l hs))
    → ((k : ℕ) (hs : List ExceptHandler) (i : ℕ) (ids : List ℕ)
        → n ≤ k
        → IsSource k i
        → AllHandlers k hs
        → AllBelow k ids
        → Safe k (walk_body hs i ids) IsBody)
    → ((k : ℕ) (b : Option ℕ) (j : Join)
        → n ≤ k
        → Falls b k
        → IsTarget k j.target
        → Safe k (walk_else b j) Falls)
    → ((k : ℕ) (b : Option ℕ) (i : ℕ)
        → n ≤ k
        → Falls b k
        → IsTarget k i
        → Safe k (walk_finally b i) Any)
    → Safe n
        (do
          after_try ← new_block
          (finally_block, join) ← try_join finalbody after_try
          metadata ← walk_handlers join
          first ← new_block
          add_edge current first "fallthrough"
          met ← walk_body metadata first (first ∷ [])
          complete_try met.try_block metadata join
          else_block ← walk_else met.try_block join
          walk_finally finally_block after_try
          record_region (record {
            try_body_block_ids = met.body_ids;
            handlers = metadata;
            finally_block_id = finally_block;
            else_block_id = else_block;
            location = span;
          })
          if_joined after_try)
        Falls
Safe-try n finalbody span current walk_handlers walk_body walk_else walk_finally big h ph pb pe pf =
    Safe-bind (Safe-new_block n) λ after_try a la fresh.
      Safe-bind (Safe-try_join a finalbody after_try (omega arith) (Fresh-IsTarget big fresh))
        λ joined c lc hj. Safe-bind (ph c joined.1 (omega arith) hj.1) λ metadata d ld hm.
          Safe-bind (Safe-new_block d) λ first e le fresh'.
            Safe-then
              (Safe-add_edge e current first "fallthrough" false (IsSource-mono h (omega arith))
                (Fresh-IsTarget (omega arith) fresh'))
              λ f lf.
                Safe-bind
                  (pb f metadata first (first ∷ []) (omega arith)
                    (IsSource-mono (Fresh-IsSource (omega arith) fresh') lf)
                    (AllHandlers-mono d f metadata (omega arith) hm) (omega (arith, fresh'.1), tt))
                  λ met g lg hb.
                    Safe-try_rest g met metadata joined.0 joined.1 span after_try walk_else
                      walk_finally hb (AllHandlers-mono d g metadata (omega arith) hm)
                      (Falls-mono joined.0 hj.0 (omega arith), IsTarget-mono hj.1 (omega arith))
                      (IsSource-mono (Fresh-IsSource big fresh) (omega arith))
                      (IsTarget-mono (Fresh-IsTarget big fresh) (omega arith))
                      (λ k b j lk. pe k b j (omega arith)) (λ k b i lk. pf k b i (omega arith))
