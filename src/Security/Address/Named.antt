-- ===== src/Security/Address/Named.antt =====
-- The client's address is never blank where a header names one.
use custom_service.Common.{
  ◌≡◌, inl, inr, false, Option, some, List, [], ◌∷◌, Bool-cases, Option-cases, Str, is_empty,
}
use custom_service.Security.Address.{first_named, split_commas, client_ip}

first_named-trimmed :
    (trim : Str → Str) (ps : List Str) (ip : Str)
    → first_named trim ps ≡ some ip
    → is_empty ip ≡ false
unfolding first_named
first_named-trimmed trim [] ip h = absurd (cc)
first_named-trimmed trim (p ∷ ps) ip h = elim (Bool-cases (is_empty (trim p))) [
  | inl blank ↦ first_named-trimmed trim ps ip (rw blank at h)
  | inr named ↦
      let q : some (trim p) ≡ some ip = rw named at h in let r : trim p ≡ ip = cc in rw (← r) named
]

-- ClientIP is not empty where the connection's own address is not and its host part, if it has one,
-- is not: no header makes it empty.
pub client_ip-named :
    (trim : Str → Str) (host_of : Str → Option Str) (real_ip forwarded remote : Str)
    → is_empty remote ≡ false
    → ((host : Str) → host_of remote ≡ some host → is_empty host ≡ false)
    → is_empty (client_ip trim host_of real_ip forwarded remote) ≡ false
unfolding client_ip
client_ip-named trim host_of real_ip forwarded remote there hosted =
    elim (Bool-cases (is_empty (trim real_ip))) [
      | inr named ↦ rw named named
      | inl blank ↦ elim (Option-cases (first_named trim (split_commas forwarded))) [
        | inr (ip, e) ↦ rw (blank, e) (first_named-trimmed trim (split_commas forwarded) ip e)
        | inl e ↦ elim (Option-cases (host_of remote)) [
          | inl none_found ↦ rw (blank, e, none_found) there
          | inr (host, x) ↦ rw (blank, e, x) (hosted host x)
        ]
      ]
    ]
