-- ===== src/Security/Tests.antt =====
-- The checks of outside values at work.
use custom_service.Common.{
  refl, false, some, [], is_empty, Str, ◌≡◌, ◌↔◌, ◌≤◌, true, length, codes, All,
}
use custom_service.Security.Address.{client_ip}
use custom_service.Security.Address.Named.{client_ip-named}
use custom_service.Security.RateLimit.Windows.{some_inj}
use custom_service.Security.Trace.{valid_trace_id}
use custom_service.Security.Trace.Format.{IsTraceIdByte, valid_trace_id_iff}

valid_trace_id_iff_example : (valid_trace_id (codes "trace_0001") ≡ true) ↔ (
    (8 ≤ length (codes "trace_0001"))
    × (length (codes "trace_0001") ≤ 64)
    × All IsTraceIdByte (codes "trace_0001"))
valid_trace_id_iff_example = valid_trace_id_iff (codes "trace_0001")

-- The header names two proxies, the first of them blank.
client_ip-named_example :
    is_empty (client_ip (λ v. v) (λ v. some v) [] (codes ",10.0.0.1") (codes "10.0.0.2")) ≡ false
unfolding is_empty
client_ip-named_example =
    client_ip-named (λ v. v) (λ v. some v) [] (codes ",10.0.0.1") (codes "10.0.0.2") refl host
  where
    host : (h : Str) → some (codes "10.0.0.2") ≡ some h → is_empty h ≡ false
    host h e = rw (← some_inj (codes "10.0.0.2") h e) refl
