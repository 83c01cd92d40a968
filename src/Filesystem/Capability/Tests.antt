-- ===== src/Filesystem/Capability/Tests.antt =====
-- Capabilities on concrete delegations.
use compukter_vm.Prelude.{◌≡◌, refl, List, [], ◌∷◌, ok, err}
use compukter_vm.Prelude.Bits.{bit_and, odd}
use compukter_vm.Filesystem.Limits.{permission_denied}
use compukter_vm.Filesystem.Path.{VirtualPath, is_within}
use compukter_vm.Filesystem.Capability.{FileRights, read, write, owner, contains, new, delegate}
use compukter_vm.Filesystem.Capability.Attenuation.{
  delegate_all, Attenuates, delegate_all-Attenuates,
}

-- `/a` and `/a/b`
abbrev home_a : VirtualPath
home_a = (97 ∷ []) ∷ []

abbrev a_b : VirtualPath
a_b = (97 ∷ []) ∷ (98 ∷ []) ∷ []

abbrev chain : List (VirtualPath × FileRights)
chain = (home_a, 20) ∷ (a_b, read) ∷ []

delegates :
    delegate_all (new [] owner) chain ≡ ok (record (new [] owner) { root = a_b; rights = read })
unfolding delegate_all delegate new contains is_within bit_and odd
delegates = refl

widening_refused : delegate (new home_a read) a_b write ≡ err permission_denied
unfolding delegate new contains is_within bit_and odd
widening_refused = refl

delegate_all-Attenuates_example :
    Attenuates (new [] owner) (record (new [] owner) { root = a_b; rights = read })
delegate_all-Attenuates_example =
    delegate_all-Attenuates (new [] owner) (record (new [] owner) { root = a_b; rights = read })
      chain delegates
