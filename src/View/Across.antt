-- ===== src/View/Across.antt =====
-- The class InterproceduralControlFlowView of src/flawed/_semantic/_cfgview.py: order across one call. The
-- graph of a function (`index.cfg`) and the call graph are given.
use flawed.Base.{
  ℕ, String, ◌≡◌, refl, sym, ◌∙◌, subst, ◌≢◌, inl, inr, Bool, true, false, ◌&&◌, Option, none, some,
  List, [], ◌∷◌, arith, if◌then◌else◌, Bool-cases, Option-cases, ◌==◌, nat_eq, string_eq, beq_sym,
  pair_eq,
}
use flawed.Types.{
  SourceSpan, CfgBlock, CfgEdge, TryExceptRegion, CallEdge, ResolutionStatus, resolved, unresolved,
  partial,
}
use flawed.Reach.{Walk}
use flawed.CallGraph.{CallGraph, edges_from}
use flawed.Cfg.{ControlFlowGraph, control_flow_graph, block_for, precedes}
use flawed.Cfg.Order.{precedes-asymm}
use flawed.View.Control.{Location, source_span}

pub record AcrossView : Type 0 where
  pub root_fqn : String
  pub reachable_fqns : List String

abbrev is_resolved : ResolutionStatus → Bool
is_resolved resolved = true
is_resolved unresolved = false
is_resolved partial = false

abbrev has_block : Option ControlFlowGraph → SourceSpan → Bool
has_block none span = false
has_block (some g) span = elim (block_for g span) [ none ↦ false | some b ↦ true ]

abbrev callee_is : String → Option String → Bool
callee_is fqn none = false
callee_is fqn (some callee) = callee == fqn

abbrev pub call_sites : String → List CallEdge → List SourceSpan
call_sites fqn [] = []
call_sites fqn (x ∷ xs) =
    if callee_is fqn x.callee_fqn && is_resolved x.resolution
    then x.location ∷ call_sites fqn xs
    else call_sites fqn xs

abbrev pub only_one : List SourceSpan → Option SourceSpan
only_one [] = none
only_one (s ∷ []) = some s
only_one (s ∷ t ∷ rest) = none

abbrev pub asked_of : Option ControlFlowGraph → SourceSpan → SourceSpan → Option Bool
asked_of none a b = some false
asked_of (some g) a b = precedes g a b

abbrev pub asked_between :
    Option ControlFlowGraph → Option SourceSpan → Option SourceSpan → Option Bool
asked_between g none rep_b = some false
asked_between g (some a) none = some false
asked_between g (some a) (some b) = asked_of g a b

module _ (cfg : String → Option ControlFlowGraph) (calls : CallGraph) (view : AcrossView) where
  -- the first function whose graph has the location
  unfoldable pub owner_in : List String → SourceSpan → Option String
  owner_in [] span = none
  owner_in (fqn ∷ fqns) span = if has_block (cfg fqn) span then some fqn else owner_in fqns span

  unfoldable pub owning_fqn : Location → Option String
  unfolding owner_in
  owning_fqn loc = owner_in (view.root_fqn ∷ view.reachable_fqns) (source_span loc)

  unfoldable pub representative_in_root : Location → String → Option SourceSpan
  representative_in_root loc fqn =
      if fqn == view.root_fqn
      then some (source_span loc)
      else only_one (call_sites fqn (edges_from calls view.root_fqn))

  abbrev pub precedes_between : Location → Location → Option String → Option String → Option Bool
  precedes_between a b none fn_b = some false
  precedes_between a b (some fn_a) none = some false
  precedes_between a b (some fn_a) (some fn_b) =
      if fn_a == fn_b
      then asked_of (cfg fn_a) (source_span a) (source_span b)
      else asked_between (cfg view.root_fqn) (representative_in_root a fn_a)
          (representative_in_root b fn_b)

  unfoldable pub across_precedes : Location → Location → Option Bool
  across_precedes a b = precedes_between a b (owning_fqn a) (owning_fqn b)

-- A graph that the constructor made, in which the entry reaches every block that a location stands in.
pub record IsLive (g : ControlFlowGraph) : Type 0 where
  pub block_list : List CfgBlock
  pub edge_list : List CfgEdge
  pub regions : List TryExceptRegion
  pub made : control_flow_graph block_list edge_list regions ≡ some g
  pub root : ℕ
  pub root_eq : g.entry_id ≡ some root
  pub live :
      (s : SourceSpan) (b : CfgBlock) → block_for g s ≡ some b → Walk g.adjacency.succs root b.id

precedes-blocks :
    (g : ControlFlowGraph) (s t : SourceSpan)
    → precedes g s t ≡ some true
    → ((a : CfgBlock) × (block_for g s ≡ some a)) × ((b : CfgBlock) × (block_for g t ≡ some b))
unfolding precedes
precedes-blocks g s t h = elim (Option-cases (block_for g s)) [
  | inl missing ↦
      let no : precedes g s t ≡ some false = rw (missing, precedes) refl in
      absurd (ground (arith, no, h))
  | inr found ↦ elim (Option-cases (block_for g t)) [
    | inl missing ↦
        let no : precedes g s t ≡ some false = rw (found.1, precedes) (rw missing refl) in
        absurd (ground (arith, no, h))
    | inr there ↦ (found, there)
  ]
]

live-asymm :
    (g : ControlFlowGraph) (s t : SourceSpan)
    → IsLive g
    → precedes g s t ≡ some true
    → precedes g t s ≢ some true
live-asymm g s t l h =
    let ((a, fa), (b, fb)) = precedes-blocks g s t h in
    precedes-asymm l.block_list l.edge_list l.regions g l.made l.root l.root_eq
      (record { block = a; found = fa; live = l.live s a fa })
      (record { block = b; found = fb; live = l.live t b fb }) h

module _ (cfg : String → Option ControlFlowGraph) (calls : CallGraph) (view : AcrossView)
    (live : (fqn : String) (g : ControlFlowGraph) → cfg fqn ≡ some g → IsLive g) where
  asked_of-asymm :
      (fqn : String) (s t : SourceSpan)
      → asked_of (cfg fqn) s t ≡ some true
      → asked_of (cfg fqn) t s ≢ some true
  asked_of-asymm fqn s t = with_graph (cfg fqn) (live fqn)
    where
      with_graph :
          (o : Option ControlFlowGraph)
          → ((g : ControlFlowGraph) → o ≡ some g → IsLive g)
          → asked_of o s t ≡ some true
          → asked_of o t s ≢ some true
      with_graph none l h = cc
      with_graph (some g) l h = live-asymm g s t (l g refl) h

  asked_between-asymm :
      (fqn : String) (ra rb : Option SourceSpan)
      → asked_between (cfg fqn) ra rb ≡ some true
      → asked_between (cfg fqn) rb ra ≢ some true
  asked_between-asymm fqn none rb h = cc
  asked_between-asymm fqn (some s) none h = cc
  asked_between-asymm fqn (some s) (some t) h = asked_of-asymm fqn s t h

  between-asymm :
      (a b : Location) (fn_a fn_b : Option String)
      → precedes_between cfg calls view a b fn_a fn_b ≡ some true
      → precedes_between cfg calls view b a fn_b fn_a ≢ some true
  between-asymm a b none fn_b h k = cc
  between-asymm a b (some fa) none h k = cc
  between-asymm a b (some fa) (some fb) h k =
      let s = source_span a in
      let t = source_span b in
      let ra = representative_in_root cfg calls view a fa in
      let rb = representative_in_root cfg calls view b fb in
      elim (Bool-cases (fa == fb)) [
        | inl same ↦
            let eq : fb ≡ fa = sym ((string_eq.beq_iff fa fb).0 same) in
            let ab : asked_of (cfg fa) s t ≡ some true =
              subst
                (λ (c : Bool).
                  (if c then asked_of (cfg fa) s t else asked_between (cfg view.root_fqn) ra rb)
                  ≡ some true)
                same h in
            let ba : asked_of (cfg fb) t s ≡ some true =
              subst
                (λ (c : Bool).
                  (if c then asked_of (cfg fb) t s else asked_between (cfg view.root_fqn) rb ra)
                  ≡ some true)
                (beq_sym fb fa ∙ same) k in
            asked_of-asymm fa s t ab (subst (λ f. asked_of (cfg f) t s ≡ some true) eq ba)
        | inr differ ↦
            let ab : asked_between (cfg view.root_fqn) ra rb ≡ some true =
              subst
                (λ (c : Bool).
                  (if c then asked_of (cfg fa) s t else asked_between (cfg view.root_fqn) ra rb)
                  ≡ some true)
                differ h in
            let ba : asked_between (cfg view.root_fqn) rb ra ≡ some true =
              subst
                (λ (c : Bool).
                  (if c then asked_of (cfg fb) t s else asked_between (cfg view.root_fqn) rb ra)
                  ≡ some true)
                (beq_sym fb fa ∙ differ) k in
            asked_between-asymm view.root_fqn ra rb ab ba
      ]

  -- If the entry of every graph reaches the blocks of its locations, then of two locations at most one is said
  -- to precede the other, in one function or across a call.
  pub across_precedes-asymm :
      (a b : Location)
      → across_precedes cfg calls view a b ≡ some true
      → across_precedes cfg calls view b a ≢ some true
  unfolding across_precedes
  across_precedes-asymm a b =
      between-asymm a b (owning_fqn cfg calls view a) (owning_fqn cfg calls view b)
