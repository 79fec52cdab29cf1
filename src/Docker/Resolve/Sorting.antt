-- ===== src/Docker/Resolve/Sorting.antt =====
-- `ServicePortSortFunc` of internal/deployment/infra/provider/docker/proxy.go compares the targets of two
-- ports and nothing else.
use seelf.Prelude.{ℕ, ◌≡◌, ◌≢◌, refl, sym, ap, ◌∙◌, List, [], ◌∷◌, arith, if◌then◌else◌, ◌==◌, ℕ_eq}
use seelf.Docker.Project.{PortConfig}
use seelf.Docker.Resolve.{insert_sorted, sort, port_le}

-- The ports with this target, in their order.
pub on_target : ℕ → List PortConfig → List PortConfig
on_target t [] = []
on_target t (p ∷ rest) = let later = on_target t rest in if p.target == t then p ∷ later else later

on_target-insert :
    (t : ℕ) (p : PortConfig) (ports : List PortConfig)
    → on_target t (insert_sorted port_le p ports) ≡ on_target t (p ∷ ports)
unfolding on_target insert_sorted
on_target-insert t p [] = refl
on_target-insert t p (q ∷ rest) = ground (arith, on_target-insert t p rest)

on_target-sort :
    (t : ℕ) (ports : List PortConfig) → on_target t (sort port_le ports) ≡ on_target t ports
unfolding on_target sort
on_target-sort t [] = refl
on_target-sort t (p ∷ rest) =
    on_target-insert t p (sort port_le rest) ∙ ground (arith, on_target-sort t rest)

-- Two orders of the ports in which those of one target stand differently are still different after
-- they were sorted.
pub sort_shows_order :
    (t : ℕ) (ports others : List PortConfig)
    → on_target t ports ≢ on_target t others
    → sort port_le ports ≢ sort port_le others
sort_shows_order t ports others differ same =
    differ (sym (on_target-sort t ports) ∙ (ap (on_target t) same ∙ on_target-sort t others))
