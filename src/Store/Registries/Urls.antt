-- ===== src/Store/Registries/Urls.antt =====
-- The urls of the table of registries under the statements.
use seelf.Prelude.{
  String, ◌≡◌, ◌≢◌, refl, ap, true, Option, List, [], ◌∷◌, string_eq, arith, All, ok, Error, any,
  subst, sym, All-append,
}
use seelf.Pkg.Table.{update}
use seelf.Pkg.Action.{Action}
use seelf.Pkg.Table.Unique.{
  All-all, delete-Only, Only, IsUnique, append-IsUnique, update-IsUnique, update-Only, set-Only,
  set-IsUnique, delete-IsUnique,
}
use seelf.Domain.Values.{Url, UrlValue, zero_url, url_eq}
use seelf.Domain.Registry.{
  RegistryEvent, registry_created, registry_renamed, registry_url_changed,
  registry_credentials_changed, registry_credentials_removed, registry_deleted,
}
use seelf.Store.Registries.{
  RegistryRow, Registries, row_id, statement, check_url_availability, write,
}

abbrev pub row_url : RegistryRow → UrlValue
row_url r = r.url

-- No two registries have one url.
abbrev pub UrlsUnique : Registries → Type 0
UrlsUnique rows = IsUnique row_id row_url rows

-- What the check says of the rows.
pub free_url :
    (rows : Registries) (url : Url)
    → (check_url_availability rows url []).unique ≡ true
    → All (λ r. r.url ≢ url.value) rows
unfolding check_url_availability any
free_url [] url h = tt
free_url (r ∷ rows) url h = (
  λ same.
      let p : record zero_url { value = r.url } ≡ record zero_url { value = url.value } =
        ap (λ v. record zero_url { value = v }) same in
      ground (arith, h, p),
  free_url rows url (ground (arith, h)),
)

pub free_for :
    (rows : Registries) (url : Url) (id : String)
    → (check_url_availability rows url (id ∷ [])).unique ≡ true
    → Only row_id row_url url.value id rows
unfolding check_url_availability any
free_for [] url id h = tt
free_for (r ∷ rows) url id h = (
  λ same.
      let p : record zero_url { value = r.url } ≡ record zero_url { value = url.value } =
        ap (λ v. record zero_url { value = v }) same in
      ground (arith, h, p),
  free_for rows url id (ground (arith, h)),
)

-- An event of the registry of an id that gives it no other url than `v`.
abbrev pub Keeps : UrlValue → String → RegistryEvent → Type 0
Keeps v k (registry_created id name url created) = ⊥
Keeps v k (registry_renamed id name) = Unit
Keeps v k (registry_url_changed id url) = (id ≡ k) × (url.value ≡ v)
Keeps v k (registry_credentials_changed id credentials) = Unit
Keeps v k (registry_credentials_removed id) = Unit
Keeps v k (registry_deleted id) = Unit

-- Unique urls, of which `v` is at most the one of `k`.
pub record Free (v : UrlValue) (k : String) (rows : Registries) : Type 0 where
  pub unique : UrlsUnique rows
  pub only : Only row_id row_url v k rows

update-Free :
    (v : UrlValue) (k id : String) (f : RegistryRow → RegistryRow) (rows : Registries)
    → ((r : RegistryRow) → (f r).id ≡ r.id)
    → ((r : RegistryRow) → (f r).url ≡ r.url)
    → Free v k rows
    → Free v k (update row_id id f rows)
update-Free v k id f rows keys urls w = record {
  unique = update-IsUnique row_id row_url id f keys rows urls w.unique;
  only = update-Only row_id row_url id f keys v k rows urls w.only;
}

statement-Free :
    (v : UrlValue) (k : String) (rows : Registries) (e : RegistryEvent)
    → Keeps v k e
    → Free v k rows
    → Free v k (statement rows e)
unfolding statement
statement-Free v k rows (registry_created id name url created) never w = absurd never
statement-Free v k rows (registry_renamed id name) _ w =
    update-Free v k id _ rows (λ r. refl) (λ r. refl) w
statement-Free v k rows (registry_url_changed id url) (same, value) w =
    let f : RegistryRow → RegistryRow = λ r. record r { url = url.value } in
    let at_k : Free v k (update row_id k f rows) = record {
      unique = set-IsUnique row_id row_url k f (λ r. refl) v rows (λ r. value) w.only w.unique;
      only = set-Only row_id row_url k f (λ r. refl) v rows w.only;
    } in
    subst (λ i. Free v k (update row_id i f rows)) (sym same) at_k
statement-Free v k rows (registry_credentials_changed id credentials) _ w =
    update-Free v k id _ rows (λ r. refl) (λ r. refl) w
statement-Free v k rows (registry_credentials_removed id) _ w =
    update-Free v k id _ rows (λ r. refl) (λ r. refl) w
statement-Free v k rows (registry_deleted id) _ w = record {
  unique = delete-IsUnique row_id row_url id rows w.unique;
  only = delete-Only row_id row_url v k id rows w.only;
}

module _ (engine : Registries → Option Error) where
  -- A statement that was accepted, and those behind it.
  pub write-next :
      (rows rows' : Registries) (e : RegistryEvent) (es : List RegistryEvent)
      → write engine rows (e ∷ es) ≡ ok rows'
      → write engine (statement rows e) es ≡ ok rows'
  unfolding write
  write-next rows rows' e es h = ground (arith, h)

  pub write-Free :
      (v : UrlValue) (k : String) (rows rows' : Registries) (es : List RegistryEvent)
      → All (Keeps v k) es
      → Free v k rows
      → write engine rows es ≡ ok rows'
      → Free v k rows'
  unfolding write
  write-Free v k rows rows' [] _ w h = subst (Free v k) (ground (arith, h)) w
  write-Free v k rows rows' (e ∷ es) (keeps, rest) w h =
      write-Free v k (statement rows e) rows' es rest (statement-Free v k rows e keeps w)
        (write-next rows rows' e es h)

  -- A new registry whose url no row has.
  pub write-created :
      (rows rows' : Registries) (id name : String) (url : Url) (created : Action)
      (es : List RegistryEvent)
      → All (λ r. r.url ≢ url.value) rows
      → All (Keeps url.value id) es
      → UrlsUnique rows
      → write engine rows (registry_created id name url created ∷ es) ≡ ok rows'
      → UrlsUnique rows'
  unfolding statement
  write-created rows rows' id name url created es free keeps v h =
      let unique = append-IsUnique row_id row_url rows _ free v in
      let only =
        All-append _ rows (_ ∷ []) (All-all _ _ rows (λ r ne same. absurd (ne same)) free)
          ((λ _. refl), tt) in
      (write-Free url.value id _ rows' es keeps (record { unique = unique; only = only })
        (write-next rows rows' _ es h)).unique
