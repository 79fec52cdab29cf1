-- ===== src/Scenarios/Targets.antt =====
-- The theorems on targets, at a target for `example.com`.
use seelf.Prelude.{
  ℕ, String, ◌≡◌, ◌≢◌, refl, Bool, true, false, Option, none, some, List, [], ◌∷◌, arith, ok, Error,
  infra, text_ne, target_in_use, target_configuration_failed, is_some, string_eq, ap,
}
use seelf.Pkg.Event.{run, replay}
use seelf.Pkg.Table.{find}
use seelf.Domain.Values.{root, url_eq}
use seelf.Domain.TargetState.{configuring}
use seelf.Domain.Target.{new_target, zero_target, rename, has_url}
use seelf.Domain.Target.Calls.{
  Call, call, Inv, call-Inv, empty-IsClean, renames, changes_url, marks_configured,
  requests_cleanup,
}
use seelf.Domain.Target.Frozen.{frozen_unchanged}
use seelf.Domain.Target.Effects.{changes_restart, SameSetup, has_url_same_root}
use seelf.Domain.Target.Replay.{calls_rebuilt, target_source}
use seelf.Store.Targets.Availability.{path_always_unique}
use seelf.Store.Targets.{check_url_availability, Targets, row_id, get_by_id, write, statement}
use seelf.Store.Targets.RoundTrip.{row_of, settled, update_target, write-get_by_id}
use seelf.Scenarios.{
  site, site_page, free_site, free_other, free_local, created_target, fresh_target, ready_target,
  frozen_target,
}

fresh-Inv : Inv fresh_target
fresh-Inv = record {
  frozen_settled = λ h. absurd (ground (arith, h));
  ready_version = λ h. ground (arith, h);
  failed_cause = λ h. ground (arith, h);
  fine_no_cause = λ h. refl;
  clean = empty-IsClean;
}

ready-Inv : Inv ready_target
ready-Inv = record {
  frozen_settled = λ h. ground (arith, h);
  ready_version = λ h. refl;
  failed_cause = λ h. ground (arith, h);
  fine_no_cause = λ h. refl;
  clean = empty-IsClean;
}

frozen-Inv : Inv frozen_target
frozen-Inv = record {
  frozen_settled = λ h. ground (arith, h);
  ready_version = λ h. refl;
  failed_cause = λ h. ground (arith, h);
  fine_no_cause = λ h. refl;
  clean = empty-IsClean;
}

abbrev story : List Call
story =
    marks_configured 1 [] none
    ∷ renames "first"
    ∷ changes_url free_other 5
    ∷ requests_cleanup false "ann" 6
    ∷ []

calls_rebuilt_example :
    replay target_source zero_target (run call created_target story).events
    ≡ run call created_target story
unfolding new_target root
calls_rebuilt_example =
    calls_rebuilt "t1" "main" free_site free_local "ann" 1 created_target story refl

call-Inv_example : Inv (call ready_target (changes_url free_other 5))
call-Inv_example = call-Inv ready_target (changes_url free_other 5) ready-Inv

frozen_unchanged_example : call frozen_target (renames "new") ≡ frozen_target
frozen_unchanged_example = frozen_unchanged frozen_target (renames "new") frozen-Inv refl refl

changes_restart_example : SameSetup ready_target (call ready_target (renames "new"))
unfolding call
changes_restart_example =
    changes_restart ready_target (renames "new") ready-Inv
      (λ h. absurd (unfold rename in ground (arith, h)))

has_url_same_root_example :
    ((has_url ready_target (record { url = site_page; unique = true }) 7).0.url ≡ site)
    × ((has_url ready_target (record { url = site_page; unique = true }) 7).0.state.status
        ≡ configuring)
    × ((has_url ready_target (record { url = site_page; unique = true }) 7).0.state.version ≡ 7)
unfolding root
has_url_same_root_example =
    has_url_same_root ready_target (record { url = site_page; unique = true }) 7 refl refl
      (λ p. text_ne "" "/page" refl (ap (λ u. u.value.path) p)) refl

abbrev accepting : Targets → Option Error
accepting rows = none

-- The row after the statements of a rename.
abbrev renamed_rows : Targets
renamed_rows = record (row_of ready_target) { name = "new" } ∷ []

write-get_by_id_example :
    (get_by_id renamed_rows "t1"
      ≡ ok (settled (run update_target ready_target ((renames "new", refl) ∷ []))))
    × (find row_id "t2" renamed_rows ≡ find row_id "t2" (row_of ready_target ∷ []))
unfolding write statement run call find seelf.Prelude.String-discrete rename seelf.Pkg.Table.update
write-get_by_id_example =
    write-get_by_id accepting (row_of ready_target ∷ []) renamed_rows ready_target
      ((renames "new", refl) ∷ []) "t2" ready-Inv refl refl refl (text_ne "t1" "t2" refl)

-- `https://example.com/page` passes for available beside a target for `https://example.com`.
path_always_unique_example :
    (check_url_availability (row_of ready_target ∷ []) site_page []).unique ≡ true
path_always_unique_example =
    path_always_unique (row_of ready_target ∷ []) site_page [] ((refl, refl), tt)
      (λ p. text_ne "/page" "" refl p)
