-- ===== src/Builder/Errors.antt =====
-- The builder's errors and the places it may fall through to: rules for the actions that report an error,
-- open a loop, take back an edge or record a region.
use text.Mathlib.Text.{◌==◌ as str_eq}
use flawed.Base.{
  ℕ, suc, ◌+◌, String, ◌≡◌, refl, ap, ◌∙◌, inl, inr, Bool, true, false, not, Option, none, some,
  List, [], ◌∷◌, ◌++◌, arith, if◌then◌else◌, Bool-cases, keep, nat_eq, string_eq,
}
use flawed.Types.{SourceSpan, TryExceptRegion}
use flawed.Builder.State.{
  Builder, M, add_edge, deferred, report_depth, degrade_depth_budget, in_loop, if_joined, connect,
  cfg_error, depth_message, ExtractionError, tail_of, deferred_message,
}
use flawed.Builder.Steps.{jump, remove, remove_edge, record_region, same_edge}
use flawed.Builder.Safe.{
  IsSource, IsTarget, IsSound, AllEdges-keep, AllTargets, AllTargets-mono, AllRegions-mono,
  AllRegions-append_one, depth_errors, flag, IsRegion,
}
use flawed.Builder.Rules.{
  After, Safe, Any, at_block-After, After-trans, Safe-pure, Safe-then, Safe-add_statement,
  Safe-add_edge,
}

-- Where a walk ends: nowhere, or in a block that control may leave.
abbrev pub Falls : Option ℕ → ℕ → Type 0
Falls none k = Unit {0}
Falls (some i) k = IsSource k i

depth_errors-append_one :
    (xs : List ExtractionError) (x : ExtractionError)
    → depth_errors (xs ++ x ∷ []) ≡ depth_errors xs + depth_errors (x ∷ [])
depth_errors-append_one [] x = omega arith
depth_errors-append_one (y ∷ xs) x = elim (Bool-cases (str_eq y.message depth_message)) [
  | inl same ↦ rw same (ap suc (depth_errors-append_one xs x) ∙ omega arith)
  | inr other ↦ rw other (depth_errors-append_one xs x)
]

pub Safe-deferred : (n : ℕ) (span : SourceSpan) → Safe n (deferred span) Any
unfolding deferred
Safe-deferred n span = record {
  at = λ b s le. (
    record {
      sound = record {
        edges_ok = s.edges_ok;
        stack_ok = s.stack_ok;
        regions_ok = s.regions_ok;
        entry_preds = s.entry_preds;
        exit_succs = s.exit_succs;
        reported_once =
            depth_errors-append_one b.errors (cfg_error b deferred_message span)
            ∙ ground (arith, s.reported_once);
      };
      grows = omega arith;
      stack = refl;
    },
    tt,
  );
}

either-After :
    (b c d : Builder) (test : Bool)
    → (test ≡ true → After b c)
    → (test ≡ false → After b d)
    → After b (if test then c else d)
either-After b c d true taken skipped = taken refl
either-After b c d false taken skipped = skipped refl

pub Safe-report_depth : (n : ℕ) (span : SourceSpan) → Safe n (report_depth span) Any
unfolding report_depth
Safe-report_depth n span = record {
  at = λ b s le. (
    either-After b _ _ b.depth_budget_reported
        (λ before. record { sound = s; grows = omega arith; stack = refl })
        (λ first. record {
          sound = record {
            edges_ok = s.edges_ok;
            stack_ok = s.stack_ok;
            regions_ok = s.regions_ok;
            entry_preds = s.entry_preds;
            exit_succs = s.exit_succs;
            reported_once =
                depth_errors-append_one b.errors (cfg_error b depth_message span)
                ∙ ap (λ z. z + 1) (s.reported_once ∙ ap flag first);
          };
          grows = omega arith;
          stack = refl;
        }),
    tt,
  );
}

pub Safe-degrade :
    (n i : ℕ) (span : SourceSpan)
    → IsSource n i
    → Safe n (degrade_depth_budget span i) (λ j k. IsSource k j)
unfolding degrade_depth_budget
Safe-degrade n i span h = Safe-then (Safe-report_depth n span) (λ k le.
    Safe-then (Safe-add_statement k i span) (λ k' le'.
      Safe-pure k' i (λ j k. IsSource k j)
        (λ l le''. record { below = omega (arith, h.below); not_exit = h.not_exit })))

pub Safe-in_loop :
    {A : Type 0} (n c t : ℕ) (m : M A) (Q : A → ℕ → Type 0)
    → IsTarget n c
    → IsTarget n t
    → Safe n m Q
    → Safe n (in_loop c t m) Q
unfolding in_loop
Safe-in_loop n c t m Q hc ht p = record {
  at = λ b s le.
      let opened = record b { loop_stack = (c, t) ∷ b.loop_stack } in
      let sound_opened : IsSound opened = record {
        edges_ok = s.edges_ok;
        stack_ok = (
          record { below = omega (arith, hc.below); not_entry = hc.not_entry },
          record { below = omega (arith, ht.below); not_entry = ht.not_entry },
          s.stack_ok,
        );
        regions_ok = s.regions_ok;
        entry_preds = s.entry_preds;
        exit_succs = s.exit_succs;
        reported_once = s.reported_once;
      } in
      let (after, q) = p.at opened sound_opened le in
      let closed : tail_of (m opened).1.loop_stack ≡ b.loop_stack = ap tail_of after.stack in
      (
        record {
          sound = record {
            edges_ok = after.sound.edges_ok;
            stack_ok = rw closed (
                AllTargets-mono b.next_id (m opened).1.next_id b.loop_stack
                  (omega (arith, after.grows)) s.stack_ok);
            regions_ok = after.sound.regions_ok;
            entry_preds = after.sound.entry_preds;
            exit_succs = after.sound.exit_succs;
            reported_once = after.sound.reported_once;
          };
          grows = after.grows;
          stack = closed;
        },
        q,
      );
}

Falls-joined :
    (preds : List ℕ) (k i : ℕ) → IsSource k i → Falls (elim preds [ [] ↦ none | _ ∷ _ ↦ some i ]) k
Falls-joined [] k i h = tt
Falls-joined (p ∷ ps) k i h = h

pub Safe-if_joined : (n i : ℕ) → IsSource n i → Safe n (if_joined i) Falls
unfolding if_joined
Safe-if_joined n i h = record {
  at = λ b s le. (
    record { sound = s; grows = omega arith; stack = refl },
    Falls-joined (b.blocks i).preds b.next_id i
        (record { below = omega (arith, h.below); not_exit = h.not_exit }),
  );
}

pub Safe-connect :
    (n : ℕ) (tail : Option ℕ) (target : ℕ) (label : String)
    → Falls tail n
    → IsTarget n target
    → Safe n (connect tail target label) Any
unfolding connect
Safe-connect n none target label hs ht = Safe-pure n tt Any (λ _ _. tt)
Safe-connect n (some i) target label hs ht = Safe-add_edge n i target label false hs ht

pub Safe-record_region : (n : ℕ) (r : TryExceptRegion) → IsRegion n r → Safe n (record_region r) Any
unfolding record_region
Safe-record_region n r h = record {
  at = λ b s le. (
    record {
      sound = record {
        edges_ok = s.edges_ok;
        stack_ok = s.stack_ok;
        regions_ok =
            AllRegions-append_one b.next_id b.try_regions r
              (AllRegions-mono n b.next_id (r ∷ []) le (h, tt)).0 s.regions_ok;
        entry_preds = s.entry_preds;
        exit_succs = s.exit_succs;
        reported_once = s.reported_once;
      };
      grows = omega arith;
      stack = refl;
    },
    tt,
  );
}

-- `jump`, with the loop stack a variable
jump-After :
    (b : Builder) (stack : List (ℕ × ℕ)) (target : (ℕ × ℕ) → ℕ) (current : ℕ) (label : String)
    → ((k c t : ℕ) → IsTarget k c → IsTarget k t → IsTarget k (target (c, t)))
    → IsSource b.next_id current
    → IsSound b
    → AllTargets b.next_id stack
    → After b
        (elim stack as (λ _. Unit {0} × Builder) [
          | [] ↦ (tt, b)
          | t ∷ _ ↦ add_edge current (target t) label b
        ]).1
jump-After b [] target current label h hs s a = record {
  sound = s;
  grows = omega arith;
  stack = refl;
}
jump-After b ((c, t) ∷ rest) target current label h hs s a =
    ((Safe-add_edge b.next_id current (target (c, t)) label false hs (h b.next_id c t a.0 a.1)).at b
      s (omega arith)).0

pub Safe-jump :
    (n : ℕ) (target : (ℕ × ℕ) → ℕ) (current : ℕ) (label : String)
    → ((k c t : ℕ) → IsTarget k c → IsTarget k t → IsTarget k (target (c, t)))
    → IsSource n current
    → Safe n (jump target current label) Any
unfolding jump
Safe-jump n target current label h hs = record {
  at = λ b s le. (
    jump-After b b.loop_stack target current label h
        (record { below = omega (arith, hs.below); not_exit = hs.not_exit }) s s.stack_ok,
    tt,
  );
}

pub Safe-remove_edge :
    (n src tgt : ℕ) (label : String)
    → IsSource n src
    → IsTarget n tgt
    → Safe n (remove_edge src tgt label) Any
unfolding remove_edge
Safe-remove_edge n src tgt label hs ht = record {
  at = λ b s le.
      let fewer = record b { edges = keep (λ x. not (same_edge src tgt label x)) b.edges } in
      let dropped : After b fewer = record {
        sound = record {
          edges_ok =
              AllEdges-keep b.next_id (λ x. not (same_edge src tgt label x)) b.edges s.edges_ok;
          stack_ok = s.stack_ok;
          regions_ok = s.regions_ok;
          entry_preds = s.entry_preds;
          exit_succs = s.exit_succs;
          reported_once = s.reported_once;
        };
        grows = omega arith;
        stack = refl;
      } in
      let left =
        at_block-After src (λ k. record k { succs = remove tgt k.succs }) fewer (λ _. refl)
          (λ e. absurd (hs.not_exit e)) dropped.sound in
      let entered =
        at_block-After tgt (λ k. record k { preds = remove src k.preds }) _
          (λ e. absurd (ht.not_entry e)) (λ _. refl) left.sound in
      (After-trans dropped (After-trans left entered), tt);
}
