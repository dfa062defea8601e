-- ===== src/Doh/LastMod.antt =====
-- When a profile last changed: the client's record of the times that NextDNS reports.
use Prim.Native.Nat.{max}
use coredns_nextdns.Prelude.{ℕ, ◌≡◌, some, arith, ite, if_pos, if_neg}
use coredns_nextdns.Prelude.Text.{Text, text_discrete}
use coredns_nextdns.Prelude.Dict
use coredns_nextdns.Prelude.Dict.{Dict}
use coredns_nextdns.Doh.{update_last_mod, conf_changed_at}

-- A report moves its own profile's time to the later of the two, and no other profile's.
pub conf_changed_at-update :
    (p q : Text) (t : ℕ) (m : Dict Text ℕ)
    → conf_changed_at (update_last_mod p (some t) m) q
      ≡ ite (text_discrete p q) (max t (conf_changed_at m q)) (conf_changed_at m q)
unfolding conf_changed_at update_last_mod
conf_changed_at-update p q t m = elim (text_discrete p q) [
  | yes same ↦
      rw (if_pos (text_discrete p q) same (max t (conf_changed_at m q)) (conf_changed_at m q))
        (ground (arith, Dict.get-put text_discrete p q t m))
  | no other ↦
      rw (if_neg (text_discrete p q) other (max t (conf_changed_at m q)) (conf_changed_at m q))
        (ground (arith, Dict.get-put text_discrete p q t m))
]
