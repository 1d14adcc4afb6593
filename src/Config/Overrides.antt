-- ===== src/Config/Overrides.antt =====
-- Which override blocks apply and what they change: src/flawed/_config/match.py.
use flawed.Base.{
  String, ◌≡◌, refl, subst, inl, inr, List, [], ◌∷◌, Bool-cases, keep, Dict, nat_eq, string_eq,
  pair_eq,
}
use flawed.Config.Schema.{Result, ok, err, ◌>>=◌, Python, OverrideBlock, ResolvedConfig, GroupDef}
use flawed.Config.Limits.{Within-weaken, Within, Within-bind, Within-at, any_then}
use flawed.Config.Match.{
  RepoIdentity, matches, apply_entries, apply_types, apply_single, apply_blocks, apply_overrides,
}

-- -- which blocks apply --------------------------------------------------

-- the blocks of a list, each applied to what the one before it gave
abbrev pub apply_each : Python → ResolvedConfig → List OverrideBlock → Result ResolvedConfig
apply_each py config [] = ok config
apply_each py config (block ∷ blocks) = do
  next ← apply_single py config block
  apply_each py next blocks

bind_ext :
    {A B : Type 0} (m : Result A) (f g : A → Result B)
    → ((a : A) → f a ≡ g a)
    → (m >>= f) ≡ (m >>= g)
bind_ext (ok a) f g h = h a
bind_ext (err e) f g h = refl

apply_blocks-keep :
    (py : Python) (groups : Dict String GroupDef) (identity : RepoIdentity)
    (config : ResolvedConfig) (blocks : List OverrideBlock)
    → apply_blocks py groups identity config blocks
      ≡ apply_each py config (keep (λ block. matches block.match identity groups) blocks)
unfolding apply_blocks
apply_blocks-keep py groups identity config [] = refl
apply_blocks-keep py groups identity config (block ∷ blocks) =
    elim (Bool-cases (matches block.match identity groups)) [
      | inl applies ↦
          rw (applies, apply_blocks)
            (bind_ext (apply_single py config block) _ _
              (λ next. apply_blocks-keep py groups identity next blocks))
      | inr other ↦ rw (other, apply_blocks) (apply_blocks-keep py groups identity config blocks)
    ]

-- The blocks that match are applied in their order; the others change nothing.
pub apply_overrides-keep :
    (py : Python) (config : ResolvedConfig) (identity : RepoIdentity)
    → apply_overrides py config identity
      ≡ apply_each py config
          (keep (λ block. matches block.match identity config.groups) config.overrides)
unfolding apply_overrides
apply_overrides-keep py config identity =
    apply_blocks-keep py config.groups identity config config.overrides

-- -- what no block can change ---------------------------------------------

-- what `apply_single` takes over from the configuration, whatever the block
abbrev pub IsFramed : ResolvedConfig → ResolvedConfig → Type 0
IsFramed config next = next ≡ record config {
  providers = record (config.providers) { entries = next.providers.entries };
  rules = next.rules;
  type_enrichment = next.type_enrichment;
}

apply_single-IsFramed :
    (py : Python) (config : ResolvedConfig) (block : OverrideBlock)
    → Within (IsFramed config) (apply_single py config block)
unfolding apply_single
apply_single-IsFramed py config block =
    any_then (IsFramed config) (apply_entries py config.providers.entries block.providers) _ (λ _.
      any_then (IsFramed config) (apply_types py config.type_enrichment block.type_enrichment) _
        (λ _. refl))

apply_blocks-IsFramed :
    (py : Python) (groups : Dict String GroupDef) (identity : RepoIdentity)
    (config : ResolvedConfig) (blocks : List OverrideBlock)
    → Within (IsFramed config) (apply_blocks py groups identity config blocks)
unfolding apply_blocks
apply_blocks-IsFramed py groups identity config [] = refl
apply_blocks-IsFramed py groups identity config (block ∷ blocks) =
    elim (Bool-cases (matches block.match identity groups)) [
      | inl applies ↦
          rw (applies, Within)
            (Within-bind (IsFramed config) (IsFramed config) (apply_single py config block) _
              (apply_single-IsFramed py config block)
              (λ next held.
                Within-weaken (IsFramed next) (IsFramed config)
                  (apply_blocks py groups identity next blocks)
                  (apply_blocks-IsFramed py groups identity next blocks)
                  (λ last later. subst (λ (c : ResolvedConfig). IsFramed c last) held later)))
      | inr other ↦ rw (other, Within) (apply_blocks-IsFramed py groups identity config blocks)
    ]

-- Whatever blocks apply, only provider entries, rules and type enrichment change: the directories, the
-- timeouts, the groups and every other setting stay as the files gave them.
pub apply_overrides-IsFramed :
    (py : Python) (config next : ResolvedConfig) (identity : RepoIdentity)
    → apply_overrides py config identity ≡ ok next
    → IsFramed config next
unfolding apply_overrides
apply_overrides-IsFramed py config next identity e =
    Within-at (IsFramed config) (apply_blocks py config.groups identity config config.overrides)
      next (apply_blocks-IsFramed py config.groups identity config config.overrides) e
