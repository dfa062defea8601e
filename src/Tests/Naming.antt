-- ===== src/Tests/Naming.antt =====
-- Runs of what identifies a client.
use coredns_nextdns.Prelude.{
  ℕ, ◌+◌, ◌≤◌, ◌≡◌, ◌≢◌, ◌⊎◌, refl, List, [], ◌∷◌, false, none, some, arith, All, length,
  ℕ_discrete,
}
use coredns_nextdns.Prelude.Text.{codes}
use coredns_nextdns.Prelude.Dict
use coredns_nextdns.Prelude.Dict.{Dict}
use coredns_nextdns.Addr.{Addr, v4, addr_discrete}
use coredns_nextdns.Device.{HardwareAddr, DeviceInfo, DeviceDb, id_auto}
use coredns_nextdns.Device.Name.{normalize_name}
use coredns_nextdns.Device.Name.Shape.{IsDeviceName, normalize_name-IsDeviceName}
use coredns_nextdns.Device.ShortId.{short_id, IsIdChar, short_id_lem}
use coredns_nextdns.Device.Lookup.{known_device}
use coredns_nextdns.Device.Refresh.{
  Reading, learn, read_files, merge_all, merge, merge_info, refresh,
}
use coredns_nextdns.Device.Refresh.Bindings.{IsRange, refresh-mac}
use coredns_nextdns.Tests.Data.{alice, home, sum64}

normalize_name-IsDeviceName_example : IsDeviceName (normalize_name (codes "Bob's iPhone.lan"))
normalize_name-IsDeviceName_example = normalize_name-IsDeviceName (codes "Bob's iPhone.lan")

short_id_lem_example :
    ((codes "mac" ≡ []) × (short_id sum64 home (codes "mac") ≡ []))
    ⊎ ((codes "mac" ≢ [])
        × (length (short_id sum64 home (codes "mac")) ≡ 5)
        × All IsIdChar (short_id sum64 home (codes "mac")))
short_id_lem_example = short_id_lem sum64 home (codes "mac")

abbrev mac : HardwareAddr
mac = 2 ∷ 0 ∷ 0 ∷ 0 ∷ 0 ∷ 7 ∷ []

abbrev bob : Addr
bob = v4 3221225992

abbrev first : Addr → ℕ
first a = 0

abbrev db : DeviceDb
db = record {
  mode = id_auto;
  model = [];
  send_ip = false;
  max_bindings = 4;
  static = [];
  discovery = none;
  learned = [];
  bindings = (alice, mac) ∷ [];
}

-- A range over a table, front to back.
skip : Addr → List (Addr × DeviceInfo) → List (Addr × DeviceInfo)
skip k [] = []
skip k (e ∷ l) =
    let rest = skip k l in elim (addr_discrete k e.0) [ yes _ ↦ rest | no _ ↦ e ∷ rest ]

walk : Dict Addr DeviceInfo → List (Addr × DeviceInfo)
walk [] = []
walk (e ∷ m) = e ∷ skip e.0 (walk m)

length-skip : (k : Addr) (l : List (Addr × DeviceInfo)) → length (skip k l) ≤ length l
unfolding skip
length-skip k [] = omega arith
length-skip k (e ∷ l) = ground (arith, length-skip k l)

skip-All :
    (h : Addr × DeviceInfo) (m : Dict Addr DeviceInfo) (l : List (Addr × DeviceInfo))
    → All (λ e. Dict.get addr_discrete e.0 m ≡ some e.1) l
    → All (λ e. Dict.get addr_discrete e.0 (h ∷ m) ≡ some e.1) (skip h.0 l)
unfolding skip Dict.get
skip-All h m [] a = tt
skip-All h m (e ∷ l) (x, a) = ground (arith, skip-All h m l a)

get_front :
    (e : Addr × DeviceInfo) (m : Dict Addr DeviceInfo)
    → Dict.get addr_discrete e.0 (e ∷ m) ≡ some e.1
unfolding Dict.get
get_front e m = ground arith

length-walk : (m : Dict Addr DeviceInfo) → length (walk m) ≤ length m
unfolding walk
length-walk [] = omega arith
length-walk (e ∷ m) = omega (arith, length-walk m, length-skip e.0 (walk m))

walk-All : (m : Dict Addr DeviceInfo) → All (λ e. Dict.get addr_discrete e.0 m ≡ some e.1) (walk m)
unfolding walk
walk-All [] = tt
walk-All (e ∷ m) = (get_front e m, skip-All e m (walk m) (walk-All m))

walk-IsRange : IsRange walk
walk-IsRange = record { once = length-walk; entries = walk-All }

-- A table that knows Bob and has forgotten Alice.
abbrev files : List Reading
files = record { error = []; entries = (bob, record { name = codes "bob"; mac = [] }) ∷ [] } ∷ []

learned_bob : learn files none ≡ (bob, record { name = codes "bob"; mac = [] }) ∷ []
unfolding learn read_files merge_all merge merge_info Dict.get Dict.put addr_discrete
learned_bob = refl

unlearned : (i : DeviceInfo) → Dict.get addr_discrete alice (learn files none) ≡ some i → i.mac ≡ []
unfolding learn read_files merge_all merge merge_info Dict.get Dict.put addr_discrete ℕ_discrete
unlearned i e = absurd (ground (arith, e))

few : 1 + length (learn files none) ≤ 4
few = rw (learned_bob) (omega arith)

known_alice : Dict.get addr_discrete alice db.bindings ≡ some mac
unfolding Dict.get addr_discrete ℕ_discrete
known_alice = refl

refresh-mac_example : (known_device (refresh first walk files none db) alice).mac ≡ mac
refresh-mac_example =
    refresh-mac first walk files none db alice mac walk-IsRange few unlearned known_alice

abbrev laptop : DeviceInfo
laptop = record { name = codes "laptop"; mac = [] }

-- A later source knows Alice's MAC and no name.
abbrev later : List (Addr × DeviceInfo)
later = (alice, record { name = []; mac = mac }) ∷ []

laptop_first : Dict.get addr_discrete alice ((alice, laptop) ∷ []) ≡ some laptop
unfolding Dict.get addr_discrete ℕ_discrete
laptop_first = refl
