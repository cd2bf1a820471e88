-- ===== src/Core/Modes.antt =====
-- The resources that the permission modes let a run use: those of `read_only` by their names, those of
-- `workspace_write` against those of `networked`, and all of them for `privileged`. The modes are not
-- ordered: `read_only` allows "credential.read", which `workspace_write` denies.
use essence_agent.Base.{
  String, ◌≡◌, ◌↔◌, refl, ap, ◌∙◌, true, false, none, List, [], ◌∷◌, arith, All, ==_iff, nat_eq,
}
use essence_agent.Base.Text.{Codes, codes, ends_with, to_ascii_lowercase, same_text}
use essence_agent.Contracts.{PermissionMode}
use essence_agent.Core.Patterns.{
  permission_mode_allows_resource, permission_mode_denial, is_read_resource, is_network_resource,
}

same_text-eq : (s t : Codes) → same_text s t ≡ true → s ≡ t
same_text-eq [] [] h = refl
same_text-eq [] (d ∷ t) h = cc
same_text-eq (c ∷ s) [] h = cc
same_text-eq (c ∷ s) (d ∷ t) h = ground (arith, ==_iff c d, same_text-eq s t (ground (arith, h)))

same_text-ends_with :
    (s t suffix : Codes)
    → ends_with t suffix ≡ true
    → same_text s t ≡ true
    → ends_with s suffix ≡ true
same_text-ends_with s t suffix ends same =
    ap (λ u. ends_with u suffix) (same_text-eq s t same) ∙ ends

reads : (s : Codes) → is_read_resource s ≡ ends_with s (codes ".read")
unfolding is_read_resource ends_with nat_eq
reads s =
    let suffix = codes ".read" in
    ground (
      arith,
      same_text-ends_with s (codes "workspace.read") suffix refl,
      same_text-ends_with s (codes "memory.read") suffix refl,
    )

-- `read_only` allows exactly the resources whose name ends in ".read", in any case of its letters.
-- `workspace_write` allows exactly what `networked` allows and does not name the network, and
-- `privileged` allows everything.
pub modes_lem :
    (resources : List String)
    → ((permission_mode_denial PermissionMode.read_only resources ≡ none)
        ↔ All
            (λ resource. ends_with (to_ascii_lowercase (codes resource)) (codes ".read") ≡ true)
            resources)
      × ((permission_mode_denial PermissionMode.workspace_write resources ≡ none) ↔ (
          (permission_mode_denial PermissionMode.networked resources ≡ none)
          × All
              (λ resource. is_network_resource (to_ascii_lowercase (codes resource)) ≡ false)
              resources))
      × (permission_mode_denial PermissionMode.privileged resources ≡ none)
unfolding permission_mode_denial permission_mode_allows_resource
modes_lem [] = ground arith
modes_lem (resource ∷ resources) =
    ground (arith, modes_lem resources, reads (to_ascii_lowercase (codes resource)))
