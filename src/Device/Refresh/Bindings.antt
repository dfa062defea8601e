-- ===== src/Device/Refresh/Bindings.antt =====
-- What becomes of the remembered MACs when the tables are refreshed.
use coredns_nextdns.Prelude.{
  ℕ, ◌+◌, ◌≤◌, ◌<◌, ◌≡◌, ◌≢◌, ◌⊎◌, inl, inr, refl, ◌∙◌, List, [], ◌∷◌, Option, some, All, length,
  arith, if◌then◌else◌, Option-cases,
}
use coredns_nextdns.Prelude.Text.{is_empty}
use coredns_nextdns.Prelude.Dict
use coredns_nextdns.Prelude.Dict.{Dict}
use coredns_nextdns.Prelude.Dict.Evict
use coredns_nextdns.Addr.{Addr, addr_discrete}
use coredns_nextdns.Device.{HardwareAddr, DeviceInfo, DeviceDb}
use coredns_nextdns.Device.Lookup.{known_device}
use coredns_nextdns.Device.Refresh.{Reading, learn, remember_one, remember, refresh}

remember_one-put_bounded :
    (max choice : ℕ) (b : Dict Addr HardwareAddr) (addr : Addr) (info : DeviceInfo)
    → remember_one max choice b addr info ≡ (
        if is_empty info.mac then b else Evict.put_bounded addr_discrete max choice addr info.mac b)
unfolding remember_one Evict.put_bounded
remember_one-put_bounded max choice b addr info = ground arith

-- The bindings of a database: no address twice, and no more than the limit.
pub record IsBounded (max : ℕ) (b : Dict Addr HardwareAddr) : Type 0 where
  pub distinct : Dict.IsDistinct addr_discrete b
  pub few : length b ≤ max

remember_one-IsBounded :
    (max choice : ℕ) (b : Dict Addr HardwareAddr) (addr : Addr) (info : DeviceInfo)
    → 0 < max
    → IsBounded max b
    → IsBounded max (remember_one max choice b addr info)
remember_one-IsBounded max choice b addr info pos h = ground (
  arith,
  remember_one-put_bounded max choice b addr info,
  Evict.put_bounded-IsDistinct addr_discrete max choice addr info.mac b h.distinct,
  Evict.length-put_bounded addr_discrete max choice addr info.mac b h.distinct pos h.few,
)

-- However the tables churn, and in whatever order and with whatever evictions a refresh goes, the
-- bindings never outgrow their positive limit and hold no address twice, if they did not before.
pub remember-IsBounded :
    (max : ℕ) (choice : Addr → ℕ) (b : Dict Addr HardwareAddr) (l : List (Addr × DeviceInfo))
    → 0 < max
    → IsBounded max b
    → IsBounded max (remember max choice b l)
unfolding remember
remember-IsBounded max choice b [] pos h = h
remember-IsBounded max choice b ((addr, info) ∷ l) pos h =
    remember-IsBounded max choice (remember_one max (choice addr) b addr info) l pos
      (remember_one-IsBounded max (choice addr) b addr info pos h)

length-remember_one :
    (max choice : ℕ) (b : Dict Addr HardwareAddr) (addr : Addr) (info : DeviceInfo)
    → length b < max
    → length (remember_one max choice b addr info) ≤ length b + 1
unfolding remember_one
length-remember_one max choice b addr info h =
    ground (arith, Dict.length-put addr_discrete addr info.mac b)

get-remember_one :
    (max choice : ℕ) (b : Dict Addr HardwareAddr) (addr j : Addr) (info : DeviceInfo)
    → length b < max
    → (addr ≢ j) ⊎ (info.mac ≡ [])
    → Dict.get addr_discrete j (remember_one max choice b addr info) ≡ Dict.get addr_discrete j b
unfolding remember_one
get-remember_one max choice b addr j info h (inl ne) =
    ground (arith, Dict.get-put addr_discrete addr j info.mac b)
get-remember_one max choice b addr j info h (inr e) = ground arith

-- As long as there is room for what a refresh learned, an address keeps its binding unless the
-- refresh learned a MAC for that very address.
pub get-remember :
    (max : ℕ) (choice : Addr → ℕ) (b : Dict Addr HardwareAddr) (l : List (Addr × DeviceInfo))
    (j : Addr)
    → length b + length l ≤ max
    → All (λ e. (e.0 ≢ j) ⊎ (e.1.mac ≡ [])) l
    → Dict.get addr_discrete j (remember max choice b l) ≡ Dict.get addr_discrete j b
unfolding remember
get-remember max choice b [] j room h = refl
get-remember max choice b ((addr, info) ∷ l) j room h =
    get-remember max choice (remember_one max (choice addr) b addr info) l j
      (omega (arith, length-remember_one max (choice addr) b addr info)) h.1
    ∙ get-remember_one max (choice addr) b addr j info (omega arith) h.0

-- What Go says of a range over a map: each entry once, in some order.
pub record IsRange (order : Dict Addr DeviceInfo → List (Addr × DeviceInfo)) : Type 0 where
  pub once : (m : Dict Addr DeviceInfo) → length (order m) ≤ length m
  pub entries :
      (m : Dict Addr DeviceInfo) → All (λ e. Dict.get addr_discrete e.0 m ≡ some e.1) (order m)

quiet :
    (m : Dict Addr DeviceInfo) (l : List (Addr × DeviceInfo)) (j : Addr)
    → ((i : DeviceInfo) → Dict.get addr_discrete j m ≡ some i → i.mac ≡ [])
    → All (λ e. Dict.get addr_discrete e.0 m ≡ some e.1) l
    → All (λ e. (e.0 ≢ j) ⊎ (e.1.mac ≡ [])) l
quiet m [] j silent h = tt
quiet m (e ∷ l) j silent h = (
  elim (addr_discrete e.0 j) [ no ne ↦ inl ne | yes same ↦ inr (silent e.1 (ground arith)) ],
  quiet m l j silent h.1,
)

-- A device keeps its MAC when its entry ages out of the tables: after a refresh that learned no MAC
-- for an address, the MAC remembered for it is the one a lookup uses, as long as there was room
-- for all that was learned and the range over the table yields its entries.
pub refresh-mac :
    (choice : Addr → ℕ) (order : Dict Addr DeviceInfo → List (Addr × DeviceInfo))
    (files : List Reading) (arp : Option Reading) (d : DeviceDb) (j : Addr) (mac : HardwareAddr)
    → IsRange order
    → length d.bindings + length (learn files arp) ≤ d.max_bindings
    → ((i : DeviceInfo) → Dict.get addr_discrete j (learn files arp) ≡ some i → i.mac ≡ [])
    → Dict.get addr_discrete j d.bindings ≡ some mac
    → (known_device (refresh choice order files arp d) j).mac ≡ mac
unfolding refresh known_device
refresh-mac choice order files arp d j mac r room silent bound =
    let learned = learn files arp in
    let kept =
      get-remember d.max_bindings choice d.bindings (order learned) j
        (omega (arith, r.once learned))
        (quiet learned (order learned) j silent (r.entries learned)) in
    elim (Option-cases (Dict.get addr_discrete j learned)) [
      | inl e ↦ ground (arith, kept)
      | inr (i, e) ↦ ground (arith, kept, silent i e)
    ]
