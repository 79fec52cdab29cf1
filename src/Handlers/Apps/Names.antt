-- ===== src/Handlers/Apps/Names.antt =====
-- The names of the applications of a table: which of them may be equal.
use seelf.Prelude.{
  String, ◌≡◌, ◌≢◌, refl, false, List, [], ◌∷◌, ◌++◌, arith, ◌&&◌, ◌==◌, string_eq, any, All,
  All-append, ok, map, subst,
}
use seelf.Pkg.Table.{update}
use seelf.Domain.Naming.{app_name_from}
use seelf.Store.Apps.{AppRow, Apps, row_id}

-- What the uniqueness of the names is about.
pub record Naming : Type 0 where
  pub name : String
  pub production : String
  pub staging : String

abbrev pub naming : AppRow → Naming
naming r = record { name = r.name; production = r.production.target; staging = r.staging.target }

-- Applications with one name share no target in an environment.
abbrev pub Differs : Naming → Naming → Type 0
Differs n m = n.name ≡ m.name → (n.production ≢ m.production) × (n.staging ≢ m.staging)

abbrev pub Unique : List Naming → Type 0
Unique [] = Unit
Unique (n ∷ rest) = All (λ m. Differs n m) rest × Unique rest

-- The names are unique and have passed the check.
pub record Inv (apps : Apps) : Type 0 where
  pub unique : Unique (map naming apps)
  pub checked : All (λ n. app_name_from n.name ≡ ok n.name) (map naming apps)

pub Unique-append :
    (front : List Naming) (n : Naming)
    → Unique front
    → All (λ m. Differs m n) front
    → Unique (front ++ (n ∷ []))
Unique-append [] n _ _ = (tt, tt)
Unique-append (m ∷ front) n (ms, rest) (d, ds) =
    (All-append _ front (n ∷ []) ms (d, tt), Unique-append front n rest ds)

pub naming-update :
    (id : String) (f : AppRow → AppRow) (apps : Apps)
    → ((r : AppRow) → naming (f r) ≡ naming r)
    → map naming (update row_id id f apps) ≡ map naming apps
unfolding update
naming-update id f [] h = refl
naming-update id f (r ∷ apps) h = ground (arith, h r, naming-update id f apps h)

-- No row has both the name and the target.
pub none_there :
    (name prod stag : String) (apps : Apps)
    → any (λ r. r.name == name && r.production.target == prod) apps ≡ false
    → any (λ r. r.name == name && r.staging.target == stag) apps ≡ false
    → All
        (λ m. Differs m (record { name = name; production = prod; staging = stag }))
        (map naming apps)
unfolding any
none_there name prod stag [] _ _ = tt
none_there name prod stag (r ∷ apps) p s = (
  λ same. (λ q. ground (arith, p, same, q), λ q. ground (arith, s, same, q)),
  none_there name prod stag apps (ground (arith, p)) (ground (arith, s)),
)

-- A name that passes the check is itself.
pub checked_name :
    (value name : String) → app_name_from value ≡ ok name → app_name_from name ≡ ok name
unfolding app_name_from
checked_name value name h =
    let same : value ≡ name = ground (arith, h) in subst (λ v. app_name_from v ≡ ok name) same h
