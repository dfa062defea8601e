-- ===== src/Device/Refresh/Merge.antt =====
-- How the sources of a refresh are folded into one table.
use coredns_nextdns.Prelude.{◌≡◌, ◌≢◌, List, [], ◌∷◌, some, arith}
use coredns_nextdns.Prelude.Dict
use coredns_nextdns.Prelude.Dict.{Dict}
use coredns_nextdns.Addr.{Addr, addr_discrete}
use coredns_nextdns.Device.{DeviceInfo}
use coredns_nextdns.Device.Refresh.{merge_info, merge, merge_all}

-- A later entry blanks out nothing of an earlier one.
pub record IsKept (old new : DeviceInfo) : Type 0 where
  pub name : old.name ≢ [] → new.name ≢ []
  pub mac : old.mac ≢ [] → new.mac ≢ []

merge_info-IsKept : (old info : DeviceInfo) → IsKept old (merge_info (some old) info)
unfolding merge_info
merge_info-IsKept old info = record { name = λ h. ground (arith, h); mac = λ h. ground (arith, h) }

get-merge :
    (m : Dict Addr DeviceInfo) (addr : Addr) (info old : DeviceInfo) (j : Addr)
    → Dict.get addr_discrete j m ≡ some old
    → (new : DeviceInfo) × (Dict.get addr_discrete j (merge m addr info) ≡ some new)
      × IsKept old new
unfolding merge
get-merge m addr info old j h = elim (addr_discrete addr j) [
  | yes p ↦ (
    merge_info (some old) info,
    ground (
      arith,
      p,
      h,
      Dict.get-put addr_discrete addr j (merge_info (Dict.get addr_discrete addr m) info) m,
    ),
    merge_info-IsKept old info,
  )
  | no q ↦ (
    old,
    ground (
      arith,
      q,
      h,
      Dict.get-put addr_discrete addr j (merge_info (Dict.get addr_discrete addr m) info) m,
    ),
    record { name = λ n. n; mac = λ n. n },
  )
]

-- Whatever later sources say, an address that the table has stays in it, and it loses neither a name
-- nor a MAC that it has.
pub get-merge_all :
    (m : Dict Addr DeviceInfo) (entries : List (Addr × DeviceInfo)) (j : Addr) (old : DeviceInfo)
    → Dict.get addr_discrete j m ≡ some old
    → (new : DeviceInfo) × (Dict.get addr_discrete j (merge_all m entries) ≡ some new)
      × IsKept old new
unfolding merge_all
get-merge_all m [] j old h = (old, h, record { name = λ n. n; mac = λ n. n })
get-merge_all m ((addr, info) ∷ rest) j old h =
    let (mid, found, kept) = get-merge m addr info old j h in
    let (new, later, kept') = get-merge_all (merge m addr info) rest j mid found in
    (new, later, record { name = λ n. kept'.name (kept.name n); mac = λ n. kept'.mac (kept.mac n) })
