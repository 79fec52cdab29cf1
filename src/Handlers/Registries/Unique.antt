-- ===== src/Handlers/Registries/Unique.antt =====
-- Commands on registries and the urls of the table.
use seelf.Prelude.{
  String, ◌≡◌, refl, sym, ◌∙◌, Bool, true, false, Option, none, some, List, [], ◌∷◌, ◌++◌, arith,
  if◌then◌else◌, ◌==◌, string_eq, All, All-append, ok, Error, bind-ok, unless-ok, checked,
  checked-ok, Option-cases, subst, inl, inr, not, Bool-cases, is_some,
}
use seelf.Pkg.Action.{Time, new_action}
use seelf.Pkg.Maybe.{Patch}
use seelf.Pkg.Table.{find, key-find}
use seelf.Pkg.Table.Unique.{Only, Only-find}
use seelf.Pkg.Validate.{value_target}
use seelf.Domain.Values.{UrlValue, Userinfo, zero_url, url_eq, Credentials, credentials_eq}
use seelf.Domain.Urls.{url_from}
use seelf.Domain.Requirement.{UrlRequirement, url_error, url_met}
use seelf.Domain.Registry.{
  Registry, RegistryEvent, registry_created, registry_renamed, registry_url_changed,
  registry_credentials_changed, registry_credentials_removed, registry_deleted, new_registry,
  rename, has_url, use_authentication, remove_authentication, apply, same_credentials,
}
use seelf.Store.Registries.{
  RegistryRow, Registries, row_id, get_by_id, check_url_availability, write, registry_from,
}
use seelf.Store.Registries.Urls.{
  row_url, UrlsUnique, free_url, free_for, Keeps, Free, write-Free, write-created,
}
use seelf.Handlers.Registries.{
  wrapped, CreateRegistry, with_credentials, create_registry_handler, UpdateRegistry,
  CredentialsUpdate, renamed, change_url, patch_credentials, update_registry_handler,
  validate_create, validate_update,
}

is_unique : (q : UrlRequirement) → wrapped (url_error q) "url" ≡ none → q.unique ≡ true
unfolding url_error
is_unique q h = elim (Bool-cases q.unique) [
  | inl yes_ ↦ yes_
  | inr no_ ↦ absurd (ground (arith, h, no_))
]

-- The events of a registry that does not leave its id.
record Tame (v : UrlValue) (k : String) (r : Registry) : Type 0 where
  id : r.id ≡ k
  events : All (Keeps v k) r.events

events-apply : (r : Registry) (e : RegistryEvent) → (apply r e).events ≡ r.events ++ (e ∷ [])
unfolding apply
events-apply r (registry_created id name url created) = refl
events-apply r (registry_renamed id name) = refl
events-apply r (registry_url_changed id url) = refl
events-apply r (registry_credentials_changed id credentials) = refl
events-apply r (registry_credentials_removed id) = refl
events-apply r (registry_deleted id) = refl

apply-Tame :
    (v : UrlValue) (k : String) (r : Registry) (e : RegistryEvent)
    → (apply r e).id ≡ r.id
    → (r.id ≡ k → Keeps v k e)
    → Tame v k r
    → Tame v k (apply r e)
apply-Tame v k r e same keeps t = record {
  id = same ∙ t.id;
  events =
      subst (All (Keeps v k)) (sym (events-apply r e))
        (All-append (Keeps v k) r.events (e ∷ []) t.events (keeps t.id, tt));
}

-- A call that raises an event or does nothing.
either-Tame :
    (v : UrlValue) (k : String) (b : Bool) (r s : Registry)
    → Tame v k r
    → Tame v k s
    → Tame v k (if b then r else s)
either-Tame v k true r s t u = t
either-Tame v k false r s t u = u

renamed-Tame :
    (v : UrlValue) (k : String) (r : Registry) (name : Option String)
    → Tame v k r
    → Tame v k (renamed r name)
unfolding rename apply
renamed-Tame v k r none t = t
renamed-Tame v k r (some name) t =
    either-Tame v k (r.name == name) r _ t
      (apply-Tame v k r (registry_renamed r.id name) refl (λ _. tt) t)

use_authentication-Tame :
    (v : UrlValue) (k : String) (r : Registry) (c : Credentials)
    → Tame v k r
    → Tame v k (use_authentication r c)
unfolding use_authentication apply
use_authentication-Tame v k r c t =
    either-Tame v k (same_credentials r.credentials c) r _ t
      (apply-Tame v k r (registry_credentials_changed r.id c) refl (λ _. tt) t)

remove_authentication-Tame :
    (v : UrlValue) (k : String) (r : Registry) → Tame v k r → Tame v k (remove_authentication r)
unfolding remove_authentication apply
remove_authentication-Tame v k r t =
    either-Tame v k (not (is_some r.credentials)) r _ t
      (apply-Tame v k r (registry_credentials_removed r.id) refl (λ _. tt) t)

patch_credentials-Tame :
    (v : UrlValue) (k : String) (r : Registry) (p : Patch CredentialsUpdate)
    → Tame v k r
    → Tame v k (patch_credentials r p)
unfolding patch_credentials
patch_credentials-Tame v k r p t =
    either-Tame v k p.is_set _ r
      (either-Tame v k p.has_value _ _ (use_authentication-Tame v k r _ t)
        (remove_authentication-Tame v k r t))
      t

has_url-Tame :
    (k : String) (r : Registry) (q : UrlRequirement)
    → Tame q.url.value k r
    → Tame q.url.value k (has_url r q).0
unfolding has_url url_met url_error apply
has_url-Tame k r q t =
    let new =
      apply-Tame q.url.value k r (registry_url_changed r.id q.url) refl (λ same. (same, refl)) t in
    elim (Bool-cases q.unique) [
      | inl free ↦ elim (url_eq.dec q.url r.url) [
        | yes same ↦ subst (Tame q.url.value k) (ground (arith, free, same)) t
        | no other ↦ subst (Tame q.url.value k) (ground (arith, free, other)) new
      ]
      | inr taken ↦ subst (Tame q.url.value k) (ground (arith, taken)) t
    ]

created_one :
    (q : UrlRequirement) (id name by : String) (now : Time) (r : Registry)
    → q.unique ≡ true
    → new_registry id name q by now ≡ ok r
    → r.events ≡ registry_created id name q.url (new_action by now) ∷ []
unfolding new_registry url_met url_error apply
created_one q id name by now r free h = ground (arith, free, h)

module _ (parse : String → Option (UrlValue × Option Userinfo)) where
  -- The url that a command gives is at most this registry's.
  change_url-Free :
      (rows : Registries) (row : RegistryRow) (r changed : Registry) (k : String)
      (url : Option String)
      → UrlsUnique rows
      → find row_id k rows ≡ some row
      → ((v : UrlValue) → Tame v k r)
      → change_url parse rows r url ≡ ok changed
      → (v : UrlValue) × Free v k rows × Tame v k changed
  unfolding change_url
  change_url-Free rows row r changed k none w found t h =
      let is_k = key-find row_id k rows row found in
      (
        row.url,
        record {
          unique = w;
          only =
              subst (λ j. Only row_id row_url row.url j rows) is_k
                (Only-find row_id row_url k rows row w found);
        },
        subst (Tame row.url k) (ground (arith, h)) (t row.url),
      )
  change_url-Free rows row r changed k (some raw) w found t h =
      let url = value_target zero_url (url_from parse raw) in
      let q = check_url_availability rows url (r.id ∷ []) in
      let (fine, h1) = unless-ok (wrapped (url_error q) "url") (checked (has_url r q)) changed h in
      let (_, same) = checked-ok (has_url r q) changed h1 in
      let only = free_for rows url r.id (is_unique q fine) in
      (
        url.value,
        record {
          unique = w;
          only = subst (λ j. Only row_id row_url url.value j rows) (t url.value).id only;
        },
        subst (Tame url.value k) same (has_url-Tame k r q (t url.value)),
      )

  module _ (engine : Registries → Option Error) where
    -- Updating a registry leaves no two registries with one url, if there were none.
    pub update_registry-UrlsUnique :
        (rows rows' : Registries) (cmd : UpdateRegistry) (id : String)
        → UrlsUnique rows
        → update_registry_handler parse engine rows cmd ≡ ok (rows', id)
        → UrlsUnique rows'
    unfolding update_registry_handler get_by_id registry_from
    update_registry-UrlsUnique rows rows' cmd id w h =
        elim (Option-cases (find row_id cmd.id rows)) [
          | inl gone ↦ absurd (
              let (_, h1) = unless-ok (validate_update parse cmd) _ _ h in ground (arith, h1, gone))
          | inr (row, found) ↦
              let (_, h1) = unless-ok (validate_update parse cmd) _ (rows', id) h in
              let (r, got, h2) = bind-ok (get_by_id rows cmd.id) _ h1 in
              let (changed, change, h3) =
                bind-ok (change_url parse rows (renamed r cmd.name) cmd.url) _ h2 in
              let (written, stored, h4) =
                bind-ok (write engine rows (patch_credentials changed cmd.credentials).events) _
                  h3 in
              let same : registry_from row ≡ r = ground (arith, got, found) in
              let fresh : (v : UrlValue) → Tame v cmd.id r = λ v.
                subst (Tame v cmd.id) same
                  (record { id = key-find row_id cmd.id rows row found; events = tt }) in
              let (v, free, tame) =
                change_url-Free rows row (renamed r cmd.name) changed cmd.id cmd.url w found
                  (λ v. renamed-Tame v cmd.id r cmd.name (fresh v)) change in
              let end : written ≡ rows' = ground (arith, h4) in
              subst UrlsUnique end
                (write-Free engine v cmd.id rows written _
                  (patch_credentials-Tame v cmd.id changed cmd.credentials tame).events free
                  stored).unique
        ]

    created_events :
        (r : Registry) (e : RegistryEvent) (v : UrlValue) (k : String) (c : Option Credentials)
        → r.events ≡ e ∷ []
        → (es : List RegistryEvent) × ((with_credentials r c).events ≡ e ∷ es) × All (Keeps v k) es
    unfolding with_credentials use_authentication
    created_events r e v k none h = ([], h, tt)
    created_events r e v k (some c) h = elim (Bool-cases (same_credentials r.credentials c)) [
      | inl same ↦ ([], ground (arith, h, same), tt)
      | inr other ↦ (
        registry_credentials_changed r.id c ∷ [],
        ground (arith, h, other, events-apply r (registry_credentials_changed r.id c)),
        (tt, tt),
      )
    ]

    -- Creating a registry leaves no two registries with one url, if there were none.
    pub create_registry-UrlsUnique :
        (rows rows' : Registries) (cmd : CreateRegistry) (id by made : String) (now : Time)
        → UrlsUnique rows
        → create_registry_handler parse engine rows cmd id by now ≡ ok (rows', made)
        → UrlsUnique rows'
    unfolding create_registry_handler
    create_registry-UrlsUnique rows rows' cmd id by made now w h =
        let url = value_target zero_url (url_from parse cmd.url) in
        let q = check_url_availability rows url [] in
        let (_, h1) = unless-ok (validate_create parse cmd) _ (rows', made) h in
        let (fine, h2) = unless-ok (wrapped (url_error q) "url") _ (rows', made) h1 in
        let (r, new, h3) = bind-ok (new_registry id cmd.name q by now) _ h2 in
        let (written, stored, h4) =
          bind-ok (write engine rows (with_credentials r cmd.credentials).events) _ h3 in
        let e = registry_created id cmd.name url (new_action by now) in
        let (es, split, keeps) =
          created_events r e url.value id cmd.credentials
            (created_one q id cmd.name by now r (is_unique q fine) new) in
        let end : written ≡ rows' = ground (arith, h4) in
        subst UrlsUnique end (
          write-created engine rows written id cmd.name url (new_action by now) es
            (free_url rows url (is_unique q fine)) keeps w
            (subst (λ l. write engine rows l ≡ ok written) split stored))
