-- ===== src/Builder/Safe.antt =====
-- What every step of the builder keeps: edges join blocks that exist, nothing leaves the exit (block 1)
-- or enters the entry (block 0), regions name blocks that exist, and a budget error stands once.
use flawed.Base.{
  ℕ, suc, ◌≤◌, ◌<◌, ◌≡◌, ◌≢◌, inl, inr, Bool, true, false, Option, none, some, List, [], ◌∷◌, ◌++◌,
  arith, if◌then◌else◌, Bool-cases, keep, nat_eq, string_eq,
}
use text.Mathlib.Text.{◌==◌ as str_eq}
use flawed.Types.{CfgEdge, ExceptHandler, TryExceptRegion}
use flawed.Builder.State.{ExtractionError, Builder, depth_message}

-- A block that control may leave, and one that it may enter.
pub record IsSource (n i : ℕ) : Type 0 where
  pub below : i < n
  pub not_exit : i ≢ 1

pub record IsTarget (n i : ℕ) : Type 0 where
  pub below : i < n
  pub not_entry : i ≢ 0

abbrev pub AllEdges : ℕ → List CfgEdge → Type 0
AllEdges n [] = Unit {0}
AllEdges n (x ∷ xs) = IsSource n x.source_id × IsTarget n x.target_id × AllEdges n xs

abbrev pub AllTargets : ℕ → List (ℕ × ℕ) → Type 0
AllTargets n [] = Unit {0}
AllTargets n ((c, t) ∷ xs) = IsTarget n c × IsTarget n t × AllTargets n xs

abbrev pub AllBelow : ℕ → List ℕ → Type 0
AllBelow n [] = Unit {0}
AllBelow n (i ∷ is) = (i < n) × AllBelow n is

-- the entries of handlers
abbrev pub AllHandlers : ℕ → List ExceptHandler → Type 0
AllHandlers n [] = Unit {0}
AllHandlers n (h ∷ hs) = IsTarget n h.entry_block_id × AllHandlers n hs

abbrev pub OptionBelow : ℕ → Option ℕ → Type 0
OptionBelow n none = Unit {0}
OptionBelow n (some i) = i < n

pub record IsRegion (n : ℕ) (r : TryExceptRegion) : Type 0 where
  pub body : AllBelow n r.try_body_block_ids
  pub entries : AllHandlers n r.handlers
  pub finally_block : OptionBelow n r.finally_block_id
  pub else_block : OptionBelow n r.else_block_id

abbrev pub AllRegions : ℕ → List TryExceptRegion → Type 0
AllRegions n [] = Unit {0}
AllRegions n (r ∷ rs) = IsRegion n r × AllRegions n rs

-- the errors that say that the depth budget is exceeded
abbrev pub depth_errors : List ExtractionError → ℕ
depth_errors [] = 0
depth_errors (x ∷ xs) =
    if str_eq x.message depth_message then suc (depth_errors xs) else depth_errors xs

abbrev pub flag : Bool → ℕ
flag true = 1
flag false = 0

pub record IsSound (b : Builder) : Type 0 where
  pub edges_ok : AllEdges b.next_id b.edges
  pub stack_ok : AllTargets b.next_id b.loop_stack
  pub regions_ok : AllRegions b.next_id b.try_regions
  pub entry_preds : (b.blocks 0).preds ≡ []
  pub exit_succs : (b.blocks 1).succs ≡ []
  pub reported_once : depth_errors b.errors ≡ flag b.depth_budget_reported

pub AllEdges-mono : (n k : ℕ) (xs : List CfgEdge) → n ≤ k → AllEdges n xs → AllEdges k xs
AllEdges-mono n k [] h a = tt
AllEdges-mono n k (x ∷ xs) h a = (omega arith, omega arith, AllEdges-mono n k xs h a.2)

pub AllEdges-append_one :
    (n : ℕ) (xs : List CfgEdge) (x : CfgEdge)
    → IsSource n x.source_id
    → IsTarget n x.target_id
    → AllEdges n xs
    → AllEdges n (xs ++ x ∷ [])
AllEdges-append_one n [] x s t a = (s, t, tt)
AllEdges-append_one n (y ∷ xs) x s t a = (a.0, a.1, AllEdges-append_one n xs x s t a.2)

pub AllEdges-keep :
    (n : ℕ) (p : CfgEdge → Bool) (xs : List CfgEdge) → AllEdges n xs → AllEdges n (keep p xs)
AllEdges-keep n p [] a = tt
AllEdges-keep n p (x ∷ xs) a = elim (Bool-cases (p x)) [
  | inl kept ↦ rw kept (a.0, a.1, AllEdges-keep n p xs a.2)
  | inr dropped ↦ rw dropped (AllEdges-keep n p xs a.2)
]

pub AllTargets-mono : (n k : ℕ) (xs : List (ℕ × ℕ)) → n ≤ k → AllTargets n xs → AllTargets k xs
AllTargets-mono n k [] h a = tt
AllTargets-mono n k ((c, t) ∷ xs) h a = (omega arith, omega arith, AllTargets-mono n k xs h a.2)

pub AllBelow-mono : (n k : ℕ) (xs : List ℕ) → n ≤ k → AllBelow n xs → AllBelow k xs
AllBelow-mono n k [] h a = tt
AllBelow-mono n k (x ∷ xs) h a = (omega arith, AllBelow-mono n k xs h a.1)

pub AllHandlers-mono :
    (n k : ℕ) (xs : List ExceptHandler) → n ≤ k → AllHandlers n xs → AllHandlers k xs
AllHandlers-mono n k [] h a = tt
AllHandlers-mono n k (x ∷ xs) h a = (omega arith, AllHandlers-mono n k xs h a.1)

pub OptionBelow-mono : (n k : ℕ) (o : Option ℕ) → n ≤ k → OptionBelow n o → OptionBelow k o
OptionBelow-mono n k none h a = tt
OptionBelow-mono n k (some i) h a = omega arith

pub AllRegions-mono :
    (n k : ℕ) (rs : List TryExceptRegion) → n ≤ k → AllRegions n rs → AllRegions k rs
AllRegions-mono n k [] h a = tt
AllRegions-mono n k (r ∷ rs) h a = (
  record {
    body = AllBelow-mono n k r.try_body_block_ids h a.0.body;
    entries = AllHandlers-mono n k r.handlers h a.0.entries;
    finally_block = OptionBelow-mono n k r.finally_block_id h a.0.finally_block;
    else_block = OptionBelow-mono n k r.else_block_id h a.0.else_block;
  },
  AllRegions-mono n k rs h a.1,
)

pub AllRegions-append_one :
    (n : ℕ) (rs : List TryExceptRegion) (r : TryExceptRegion)
    → IsRegion n r
    → AllRegions n rs
    → AllRegions n (rs ++ r ∷ [])
AllRegions-append_one n [] r h a = (h, tt)
AllRegions-append_one n (x ∷ rs) r h a = (a.0, AllRegions-append_one n rs r h a.1)
