-- ===== src/Store/Targets/Availability.antt =====
-- `CheckUrlAvailability` against the urls that the table holds.
use seelf.Prelude.{
  String, ◌≡◌, ◌≢◌, refl, true, false, List, [], ◌∷◌, arith, All, any, ◌==◌, ◌&&◌, not, string_eq,
}
use seelf.Domain.Values.{Url, zero_url, url_eq}
use seelf.Store.Targets.{TargetRow, Targets, check_url_availability, excludes}

-- The url of the row is a root: it has no path and no query.
abbrev pub Rooted : TargetRow → Type 0
Rooted r = (r.url.path ≡ "") × (r.url.raw_query ≡ "")

none_has_path :
    (rows : Targets) (u : Url) (excluded : List String)
    → All Rooted rows
    → u.value.path ≢ ""
    → any
        (λ r.
          record zero_url { value = r.url } == record zero_url { value = u.value }
          && not (excludes excluded r.id))
        rows
      ≡ false
unfolding any
none_has_path [] u excluded a d = refl
none_has_path (r ∷ rows) u excluded ((p, q), a) d =
    ground (arith, p, d, none_has_path rows u excluded a d)

-- Where every url of the table is a root, a url with a path is reported as available, whatever the
-- rows: also beside a target that has its root.
pub path_always_unique :
    (rows : Targets) (u : Url) (excluded : List String)
    → All Rooted rows
    → u.value.path ≢ ""
    → (check_url_availability rows u excluded).unique ≡ true
unfolding check_url_availability
path_always_unique rows u excluded a d = ground (arith, none_has_path rows u excluded a d)
