-- ===== src/Filesystem/Path/Valid.antt =====
-- src/filesystem/path.rs: which paths the limits allow, and the checks that decide it.
use compukter_vm.Prelude.{
  ◌≤◌, false, List, [], ◌∷◌, length, All, ◌≡◌, refl, ◌≢◌, inl, inr, arith, ap, Bool-cases, ok,
  and_then, and_then-ok,
}
use compukter_vm.Filesystem.Limits.{FileSystemLimits}
use compukter_vm.Filesystem.Path.{
  Str, VirtualPath, str_eq, is_empty, check_component, check_components, encoded_len,
}
use compukter_vm.Filesystem.Path.Bytes.{str_eq-eq, str_eq_refl, NoSlash, NoNul}

-- A name that the limits allow.
abbrev pub IsName : FileSystemLimits → Str → Type 0
IsName limits c =
    (c ≢ []) × (c ≢ 46 ∷ []) × (c ≢ 46 ∷ 46 ∷ []) × (length c ≤ limits.maximum_component_bytes)

-- A path that the limits allow.
abbrev pub IsValid : FileSystemLimits → VirtualPath → Type 0
IsValid limits path =
    All (IsName limits) path
    × All NoSlash path
    × All NoNul path
    × (length path ≤ limits.maximum_components)
    × (encoded_len path ≤ limits.maximum_path_bytes)

differ : (c d : Str) → c ≢ d → str_eq c d ≡ false
differ c d h = elim (Bool-cases (str_eq c d)) [ inl e ↦ absurd (h (str_eq-eq c d e)) | inr e ↦ e ]

same : (c d : Str) → str_eq c d ≡ false → c ≢ d
same c d h e = cc (ap (λ x. str_eq c x) e, str_eq_refl c, h)

not_empty : (c : Str) → c ≢ [] → is_empty c ≡ false
not_empty [] h = absurd (h refl)
not_empty (b ∷ bs) h = refl

empty-not : (c : Str) → is_empty c ≡ false → c ≢ []
empty-not c h e = cc (ap is_empty e, h)

pub check_component-IsName :
    (limits : FileSystemLimits) (c : Str) → IsName limits c → check_component limits c ≡ ok c
unfolding check_component
check_component-IsName limits c (e, d, dd, l) =
    ground (arith, not_empty c e, differ c (46 ∷ []) d, differ c (46 ∷ 46 ∷ []) dd)

pub IsName-check_component :
    (limits : FileSystemLimits) (c d : Str)
    → check_component limits c ≡ ok d
    → (d ≡ c) × IsName limits c
unfolding check_component
IsName-check_component limits c d h = (
  ground arith,
  (
    empty-not c (ground arith),
    same c (46 ∷ []) (ground arith),
    same c (46 ∷ 46 ∷ []) (ground arith),
    ground arith,
  ),
)

pub check_components-IsName :
    (limits : FileSystemLimits) (cs : List Str)
    → All (IsName limits) cs
    → check_components limits cs ≡ ok cs
unfolding check_components
check_components-IsName limits [] h = refl
check_components-IsName limits (c ∷ cs) h =
    rw (check_component-IsName limits c h.0, check_components-IsName limits cs h.1) refl

pub IsName-check_components :
    (limits : FileSystemLimits) (cs ds : List Str)
    → check_components limits cs ≡ ok ds
    → (ds ≡ cs) × All (IsName limits) cs
unfolding check_components
IsName-check_components limits [] ds h = (ground arith, tt)
IsName-check_components limits (c ∷ cs) ds h =
    let (d, e, h') =
      and_then-ok (check_component limits c)
        (λ c. and_then (check_components limits cs) λ cs. ok (c ∷ cs)) ds h in
    let (ds', e', h'') = and_then-ok (check_components limits cs) (λ cs. ok (d ∷ cs)) ds h' in
    let (q, n) = IsName-check_component limits c d e in
    let (qs, ns) = IsName-check_components limits cs ds' e' in (ground (arith, q, qs), (n, ns))

pub IsName-not_empty :
    (limits : FileSystemLimits) (cs : List Str) → All (IsName limits) cs → All (λ c. c ≢ []) cs
IsName-not_empty limits [] h = tt
IsName-not_empty limits (c ∷ cs) h = (h.0.0, IsName-not_empty limits cs h.1)
