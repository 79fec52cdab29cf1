-- ===== src/Docker/Transform/Images.antt =====
-- The images to build for the services of a project: which there are, and their labels.
use seelf.Prelude.{
  String, ◌≡◌, sym, ◌∙◌, some, arith, string_eq, inl, inr, Map, lookup, insert, lookup-insert,
  get_or, subst, String-discrete, Option-cases, Option, none, Bool, is_some,
}
use seelf.Domain.Services.{Service}
use seelf.Domain.Deployment.{DeploymentConfig}
use seelf.Docker.Project.{Labels, ServiceDefinition, append_labels, builder_labels}
use seelf.Docker.Transform.{zero_definition, force_build, attach_variables, prepare}
use seelf.Docker.Transform.Keeping.{Carries, append_labels-Carries}

-- Does the definition under a key have an image to build?
abbrev pub has_build : Map ServiceDefinition → String → Bool
has_build definitions name = is_some (get_or (lookup name definitions) zero_definition).build

pub insert-has_build :
    (definitions : Map ServiceDefinition) (name m : String) (d : ServiceDefinition)
    → is_some d.build ≡ has_build definitions name
    → has_build (insert name d definitions) m ≡ has_build definitions m
insert-has_build definitions name m d h = elim (String-discrete name m) [
  | yes p ↦ ground (arith, p, h, lookup-insert name m d definitions)
  | no p ↦ ground (arith, p, lookup-insert name m d definitions)
]

module _ (app : String) (conf : DeploymentConfig) where
  -- The labels of the image to build, if there is one.
  abbrev pub BuildCarries : Option Labels → Type 0
  BuildCarries none = Unit
  BuildCarries (some build_labels) = Carries app conf build_labels

  module _ (network : String) (routers : Map String) where
    abbrev labels : Labels
    labels = builder_labels app conf

    attach_variables-build :
        (service : String) (d : ServiceDefinition)
        → (attach_variables conf service d).build ≡ d.build
    unfolding attach_variables
    attach_variables-build service d = ground arith

    -- The image to build that the preparation leaves, and no other.
    pub prepare-build :
        (s : Service) (d : ServiceDefinition)
        → let d' = prepare conf labels network routers s d in
          BuildCarries d'.build × (is_some d'.build ≡ is_some d.build)
    unfolding prepare force_build
    prepare-build s d =
        let kept = attach_variables-build s.name (force_build labels s d) in
        elim (Option-cases d.build) [
          | inl e ↦
              let found : (force_build labels s d).build ≡ none = ground (arith, e) in
              (subst BuildCarries (sym (kept ∙ found)) tt, ground (arith, kept, found, e))
          | inr (build_labels, e) ↦
              let found : (force_build labels s d).build
                  ≡ some (append_labels build_labels labels) =
                ground (arith, e) in
              (
                subst BuildCarries (sym (kept ∙ found))
                    (append_labels-Carries app conf build_labels),
                ground (arith, kept, found, e),
              )
        ]
