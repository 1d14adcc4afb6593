-- ===== src/Symbols/Tests.antt =====
-- The symbol index at a name that resolves in one of two files.
use flawed.Base.{
  String, ◌≡◌, refl, none, some, List, [], ◌∷◌, map, keep, nat_eq, string_eq, pair_eq,
}
use flawed.Types.{SourceSpan, SymbolRef, ExtractionProvenance, resolved, unresolved}
use flawed.Symbols.{symbol_index, resolve, has_fqn, usages, usages-keep, Names, resolve-Names}

abbrev in_file : String → SourceSpan
in_file file = record { file = file; line = 1; column = 0; end_line = 1; end_column = 4 }

abbrev a_pass : ExtractionProvenance
a_pass = record { producer = "symbol_pass"; producer_version = "1"; artifact = "app.py" }

abbrev some_refs : List SymbolRef
some_refs =
    record {
      name = "load";
      fqn = none;
      resolution = unresolved;
      location = in_file "a.py";
      provenance = a_pass;
    }
    ∷ record {
      name = "load";
      fqn = some "db.load";
      resolution = resolved;
      location = in_file "b.py";
      provenance = a_pass;
    }
    ∷ []

resolve_run : resolve (symbol_index some_refs) "load" "b.py" ≡ some "db.load"
unfolding resolve symbol_index
resolve_run = refl

resolve-Names_example :
    Names "load" "b.py" some_refs (resolve (symbol_index some_refs) "load" "b.py")
resolve-Names_example = resolve-Names some_refs "load" "b.py"

usages-keep_example :
    usages (symbol_index some_refs) "db.load"
    ≡ map (λ r. r.location) (keep (has_fqn "db.load") some_refs)
usages-keep_example = usages-keep some_refs "db.load"
