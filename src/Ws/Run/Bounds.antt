-- ===== src/Ws/Run/Bounds.antt =====
-- The bounds of the queues as a predicate that the parts of a step keep.
use custom_service.Common.{
  Str, [], ◌≡◌, refl, inl, inr, some, Bool-cases, str_eq, lookup-store, modify-Every, arith,
}
use custom_service.Ws.Client.{with_conv, set_conversation_id, Client, Net}
use custom_service.Ws.Client.Sending.{IsBounded, AllBounded, send-AllBounded, close-AllBounded}
use custom_service.Ws.Registry.{entered}
use custom_service.Ws.Run.Stable.{Stable, IsNew, IsSoft}

new-IsBounded : (c : Client) (n : Net) → IsNew c n → IsBounded c
new-IsBounded c n new = record {
  high_bound = rw new.no_high (omega (arith));
  low_bound = rw new.no_low (omega (arith));
}

soft-IsBounded : (f : Client → Client) (c : Client) → IsSoft f → IsBounded c → IsBounded (f c)
soft-IsBounded f c soft b = record {
  high_bound = rw (soft.same_high c) b.high_bound;
  low_bound = rw (soft.same_low c) b.low_bound;
}

entered-AllBounded : (c : Client) (n : Net) → IsNew c n → AllBounded n → AllBounded (entered c n)
unfolding entered
entered-AllBounded c n new all k d h = elim (Bool-cases (str_eq c.conn_id k)) [
  | inl same ↦
      let e : some c ≡ some d = rw (← h, lookup-store c.conn_id k c n.clients, same) refl in
      let p : c ≡ d = cc in rw (← p) (new-IsBounded c n new)
  | inr ne ↦ all k d (rw (← h, lookup-store c.conn_id k c n.clients, ne) refl)
]

with_conv-AllBounded :
    (conn conv : Str) (n : Net) → AllBounded n → AllBounded (set_conversation_id conn conv n)
unfolding set_conversation_id with_conv
with_conv-AllBounded conn conv n b =
    modify-Every IsBounded conn (with_conv conv) n.clients
      (λ c h. record { high_bound = (b conn c h).high_bound; low_bound = (b conn c h).low_bound }) b

pub AllBounded-Stable : Stable (λ ix n. AllBounded n)
AllBounded-Stable = record {
  after_send = λ conn e ix n b. send-AllBounded conn e n b;
  after_close = λ conn ix n b. close-AllBounded conn n b;
  after_write = λ conn f ix n soft b.
      modify-Every IsBounded conn f n.clients (λ c h. soft-IsBounded f c soft (b conn c h)) b;
  after_pop = λ rest ix n b. b;
  after_move = λ conn conv ix n b. with_conv-AllBounded conn conv n b;
  after_unbind = λ conn c ix n e b. with_conv-AllBounded conn [] n b;
  after_detach = λ conn conv ix n b. b;
  after_hall = λ subs ix n b. b;
  after_visitor = λ c ix n new kind b. entered-AllBounded c n new b;
  after_agent = λ c ix n new kind b. entered-AllBounded c n new b;
  after_forget = λ vid conn ix n b. b;
  after_remove = λ aid conn ix n b. b;
}
