-- ===== src/Builder/Parts.antt =====
-- Rules for the steps that walk no nested statements, and for the tests of the depth budget.
use flawed.Base.{
  ℕ, ◌≤◌, ◌<◌, String, Bool, true, false, Option, none, some, List, [], ◌∷◌, arith, nat_eq,
  string_eq,
}
use flawed.Types.{SourceSpan}
use flawed.Builder.Syntax.{
  Value, Small, returns, raises, breaks, continues, assign, expr, other_small,
}
use flawed.Builder.State.{M, pure}
use flawed.Builder.Steps.{capture_optional, after_small, process_simple_line}
use flawed.Builder.Safe.{IsSource, IsTarget}
use flawed.Builder.Rules.{
  Safe, Any, Fresh, Safe-pure, Safe-then, Safe-bind, Safe-new_block, Safe-add_statement,
  Safe-add_edge, Safe-capture,
}
use flawed.Builder.Errors.{Falls, Safe-jump}

-- -- blocks stay what they are -------------------------------------

pub IsSource-mono : {n k i : ℕ} → IsSource n i → n ≤ k → IsSource k i
IsSource-mono h le = record { below = omega (arith, h.below); not_exit = h.not_exit }

pub IsTarget-mono : {n k i : ℕ} → IsTarget n i → n ≤ k → IsTarget k i
IsTarget-mono h le = record { below = omega (arith, h.below); not_entry = h.not_entry }

pub Fresh-IsSource : {n k i : ℕ} → 1 < n → Fresh n i k → IsSource k i
Fresh-IsSource h f = record { below = f.1; not_exit = λ e. omega (arith, f.0, e) }

pub Fresh-IsTarget : {n k i : ℕ} → 1 < n → Fresh n i k → IsTarget k i
Fresh-IsTarget h f = record { below = f.1; not_entry = λ e. omega (arith, f.0, e) }

pub exit-IsTarget : {n : ℕ} → 1 < n → IsTarget n 1
exit-IsTarget h = record { below = h; not_entry = λ e. omega (arith, e) }

pub Falls-mono : (o : Option ℕ) {n k : ℕ} → Falls o n → n ≤ k → Falls o k
Falls-mono none h le = tt
Falls-mono (some i) h le = IsSource-mono h le

pub Safe-elim_option :
    {B : Type 0} {n : ℕ} (o : Option ℕ) {z : M B} {f : ℕ → M B} {R : B → ℕ → Type 0}
    → Falls o n
    → Safe n z R
    → ((i : ℕ) → IsSource n i → Safe n (f i) R)
    → Safe n (elim o [ none ↦ z | some i ↦ f i ]) R
Safe-elim_option none h p q = p
Safe-elim_option (some i) h p q = q i h

pub Safe-none : (n : ℕ) → Safe n (pure none) Falls
Safe-none n = Safe-pure n none Falls (λ _ _. tt)

pub Safe-some : (n i : ℕ) → IsSource n i → Safe n (pure (some i)) Falls
Safe-some n i h = Safe-pure n (some i) Falls (λ k le. IsSource-mono h le)

-- -- simple lines --------------------------------------------------

Safe-capture_optional :
    (n : ℕ) (value : Option Value) (position : String) (i : ℕ)
    → Safe n (capture_optional value position i) Any
unfolding capture_optional
Safe-capture_optional n none position i = Safe-pure n tt Any (λ _ _. tt)
Safe-capture_optional n (some value) position i = Safe-capture n value position i

Safe-after_small :
    (n : ℕ) (suspends : Bool) (span : SourceSpan) (current : ℕ) (rest : ℕ → M (Option ℕ))
    → 1 < n
    → IsSource n current
    → ((k i : ℕ) → n ≤ k → IsSource k i → Safe k (rest i) Falls)
    → Safe n (after_small suspends span current rest) Falls
unfolding after_small
Safe-after_small n true span current rest big h p =
    Safe-then (Safe-add_statement n current span) λ a la.
      Safe-bind (Safe-new_block a) λ resume c lc fresh.
        Safe-then
          (Safe-add_edge c current resume "yield" false (IsSource-mono h (omega arith))
            (Fresh-IsTarget (omega arith) fresh))
          λ d ld. p d resume (omega arith) (IsSource-mono (Fresh-IsSource (omega arith) fresh) ld)
Safe-after_small n false span current rest big h p = p n current (omega arith) h

pub Safe-process_simple_line :
    (n : ℕ) (span : SourceSpan) (smalls : List Small) (current : ℕ)
    → 1 < n
    → IsSource n current
    → Safe n (process_simple_line span 1 smalls current) Falls
unfolding process_simple_line
Safe-process_simple_line n span [] current big h =
    Safe-then (Safe-add_statement n current span) λ k le. Safe-some k current (IsSource-mono h le)
Safe-process_simple_line n span (returns value ∷ smalls) current big h =
    Safe-then (Safe-add_statement n current span) λ a la.
      Safe-then (Safe-capture_optional a value "return" current) λ c lc.
        Safe-then
          (Safe-add_edge c current 1 "return" false (IsSource-mono h (omega arith))
            (exit-IsTarget (omega arith)))
          λ d ld. Safe-none d
Safe-process_simple_line n span (raises ∷ smalls) current big h =
    Safe-then (Safe-add_statement n current span) λ a la.
      Safe-then
        (Safe-add_edge a current 1 "raise" false (IsSource-mono h la) (exit-IsTarget (omega arith)))
        λ d ld. Safe-none d
Safe-process_simple_line n span (breaks ∷ smalls) current big h =
    Safe-then (Safe-jump n (λ t. t.1) current "break" (λ k c t p q. q) h)
      λ a la. Safe-then (Safe-add_statement a current span) λ d ld. Safe-none d
Safe-process_simple_line n span (continues ∷ smalls) current big h =
    Safe-then (Safe-jump n (λ t. t.0) current "continue" (λ k c t p q. p) h)
      λ a la. Safe-then (Safe-add_statement a current span) λ d ld. Safe-none d
Safe-process_simple_line n span (assign value has_yield ∷ smalls) current big h =
    Safe-then (Safe-capture_optional n value "assign" current) λ a la.
      Safe-after_small a has_yield span current _ (omega arith) (IsSource-mono h la)
        λ k i le s. Safe-process_simple_line k span smalls i (omega arith) s
Safe-process_simple_line n span (expr is_yield ∷ smalls) current big h =
    Safe-after_small n is_yield span current _ big h
      λ k i le s. Safe-process_simple_line k span smalls i (omega arith) s
Safe-process_simple_line n span (other_small ∷ smalls) current big h =
    Safe-process_simple_line n span smalls current big h
