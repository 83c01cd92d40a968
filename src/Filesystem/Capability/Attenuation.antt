-- ===== src/Filesystem/Capability/Attenuation.antt =====
-- src/filesystem/capability.rs: what a delegated capability may do, its parent may do.
use compukter_vm.Prelude.{
  true, List, [], ◌∷◌, ◌≡◌, refl, ◌∙◌, sym, subst, Result, ok, arith, ==_iff, and_then, and_then-ok,
}
use compukter_vm.Prelude.Bits.{bit_and, bit_and_trans}
use compukter_vm.Filesystem.Limits.{FileSystemError}
use compukter_vm.Filesystem.Path.{VirtualPath, str_eq, is_within}
use compukter_vm.Filesystem.Path.Bytes.{str_eq-eq}
use compukter_vm.Filesystem.Capability.{FileRights, contains, FileCapability, permits, delegate}

is_within_trans :
    (p q r : VirtualPath) → is_within p q ≡ true → is_within q r ≡ true → is_within p r ≡ true
unfolding is_within
is_within_trans p q [] h k = refl
is_within_trans p [] (c ∷ r) h k = absurd (ground arith)
is_within_trans [] (b ∷ q) (c ∷ r) h k = absurd (ground arith)
is_within_trans (a ∷ p) (b ∷ q) (c ∷ r) h k =
    let e : a ≡ b = str_eq-eq a b (ground arith) in
    let s : str_eq a c ≡ true = subst (λ x. str_eq x c ≡ true) (sym e) (ground arith) in
    ground (arith, is_within_trans p q r (ground arith) (ground arith))

contains_trans :
    (a b c : FileRights) → contains a b ≡ true → contains b c ≡ true → contains a c ≡ true
unfolding contains
contains_trans a b c h k =
    let e =
      bit_and_trans 16 a b c ((==_iff (bit_and 16 a b) b).0 h) ((==_iff (bit_and 16 b c) c).0 k) in
    (==_iff (bit_and 16 a c) c).1 e

-- A chain of delegations, each to a subtree and rights.
unfoldable pub delegate_all :
    FileCapability → List (VirtualPath × FileRights) → Result FileSystemError FileCapability
delegate_all self [] = ok self
delegate_all self ((root, rights) ∷ rest) =
    and_then (delegate self root rights) λ next. delegate_all next rest

-- The child permits nothing that its parent does not, and keeps its limits.
abbrev pub Attenuates : FileCapability → FileCapability → Type 0
Attenuates self child =
    ((path : VirtualPath)
      → (required : FileRights) → permits child path required ≡ true
      → permits self path required ≡ true)
    × (child.logical_byte_limit ≡ self.logical_byte_limit)
    × (child.operation_limit ≡ self.operation_limit)
    × (child.handle_limit ≡ self.handle_limit)

delegate-Attenuates :
    (self child : FileCapability) (root : VirtualPath) (rights : FileRights)
    → delegate self root rights ≡ ok child
    → Attenuates self child
unfolding delegate permits
delegate-Attenuates self child root rights h =
    let within : is_within root self.root ≡ true = ground arith in
    let held : contains self.rights rights ≡ true = ground arith in
    let r : child.root ≡ root = ground arith in
    let s : child.rights ≡ rights = ground arith in
    (
      (λ path required p. ground (
        arith,
        is_within_trans path root self.root (subst (λ x. is_within path x ≡ true) r (ground arith))
            within,
        contains_trans self.rights rights required held
            (subst (λ x. contains x required ≡ true) s (ground arith)),
      )),
      ground arith,
      ground arith,
      ground arith,
    )

-- However often a capability is delegated, the last one permits only what the first permits, and has its limits.
pub delegate_all-Attenuates :
    (self child : FileCapability) (chain : List (VirtualPath × FileRights))
    → delegate_all self chain ≡ ok child
    → Attenuates self child
unfolding delegate_all
delegate_all-Attenuates self child [] h =
    let e : self ≡ child = ground arith in
    subst (Attenuates self) e ((λ path required p. p), refl, refl, refl)
delegate_all-Attenuates self child ((root, rights) ∷ rest) h =
    let (next, d, h') =
      and_then-ok (delegate self root rights) (λ next. delegate_all next rest) child h in
    let (p, b, o, n) = delegate-Attenuates self next root rights d in
    let (p', b', o', n') = delegate_all-Attenuates next child rest h' in
    ((λ path required q. p path required (p' path required q)), b' ∙ b, o' ∙ o, n' ∙ n)
