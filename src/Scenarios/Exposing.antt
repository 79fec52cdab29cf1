-- ===== src/Scenarios/Exposing.antt =====
-- The theorems on entrypoints, at an application that exposes a database.
use seelf.Prelude.{
  arith, ℕ, String, ◌≡◌, ◌≢◌, refl, Bool, true, false, Option, none, some, List, [], ◌∷◌, is_some,
  string_eq, ◌==◌, ◌&&◌, if◌then◌else◌, lookup, ◌↔◌, Map,
}
use seelf.Domain.Services.{names}
use seelf.Domain.Entrypoints.{TargetEntrypoints, port_of, merge}
use seelf.Domain.Entrypoints.Merge.{port_of-merge}
use seelf.Scenarios.{database}

abbrev exposed : TargetEntrypoints
exposed = ("a1", ("production", ("db-5432", some 5432) ∷ ("web-80", none) ∷ []) ∷ []) ∷ []

port_of-merge_example :
    port_of (merge exposed "a1" "production" (database ∷ [])).0 "a1" "production" "db-5432"
    ≡ some (some 5432)
unfolding seelf.Prelude.String-discrete names port_of lookup
port_of-merge_example =
    port_of-merge exposed "a1" "production" (database ∷ []) "a1" "production" "db-5432"
