-- ===== src/Security/Address.antt =====
-- ClientIP of backend/internal/security/ratelimit.go.
pub mod Named
use custom_service.Common.{
  ◌==◌, not, Option, none, some, List, [], ◌∷◌, if◌then◌else◌, Str, is_empty,
}

unfoldable pub split_commas : Str → List Str
split_commas [] = [] ∷ []
split_commas (b ∷ s) =
    let rest = split_commas s in
    if b == b','
    then [] ∷ rest
    else elim rest [ [] ↦ (b ∷ []) ∷ [] | part ∷ parts ↦ (b ∷ part) ∷ parts ]

unfoldable pub first_named : (Str → Str) → List Str → Option Str
first_named trim [] = none
first_named trim (p ∷ ps) = if is_empty (trim p) then first_named trim ps else some (trim p)

-- ClientIP, from the two headers and the address of the connection; strings.TrimSpace and
-- net.SplitHostPort are arguments.
unfoldable pub client_ip : (Str → Str) → (Str → Option Str) → Str → Str → Str → Str
unfolding split_commas first_named
client_ip trim host_of real_ip forwarded remote =
    if not (is_empty (trim real_ip))
    then trim real_ip
    else elim (first_named trim (split_commas forwarded)) [
      | some ip ↦ ip
      | none ↦ elim (host_of remote) [ none ↦ remote | some host ↦ host ]
    ]
