-- ===== src/Device/Refresh.antt =====
-- deviceDB.refresh: the learned table is rebuilt from the sources, and the MAC bindings outlive it.
pub mod Bindings
pub mod Merge
use coredns_nextdns.Prelude.{
  ℕ, ◌+◌, ◌≤◌, ◌≡◌, List, [], ◌∷◌, ◌++◌, Bool, true, false, not, ◌&&◌, Option, none, some, length,
  leb, if◌then◌else◌, is_some,
}
use coredns_nextdns.Prelude.Text.{Text, text_eq, is_empty}
use coredns_nextdns.Prelude.Dict
use coredns_nextdns.Prelude.Dict.{Dict}
use coredns_nextdns.Addr.{Addr, addr_discrete}
use coredns_nextdns.Device.{HardwareAddr, DeviceInfo, DeviceDb}

-- merge: a later source does not blank out what an earlier one filled in.
unfoldable pub merge_info : Option DeviceInfo → DeviceInfo → DeviceInfo
merge_info none info = info
merge_info (some cur) info = record {
  name = if is_empty info.name then cur.name else info.name;
  mac = if is_empty info.mac then cur.mac else info.mac;
}

unfoldable pub merge : Dict Addr DeviceInfo → Addr → DeviceInfo → Dict Addr DeviceInfo
merge m addr info = Dict.put addr_discrete addr (merge_info (Dict.get addr_discrete addr m) info) m

unfoldable pub merge_all : Dict Addr DeviceInfo → List (Addr × DeviceInfo) → Dict Addr DeviceInfo
merge_all m [] = m
merge_all m ((addr, info) ∷ rest) = merge_all (merge m addr info) rest

-- What reading a source gives: an error, or what was parsed before it.
pub record Reading : Type 0 where
  pub error : Text
  pub entries : List (Addr × DeviceInfo)

-- logChanged: the remembered error, whether a line is logged, and whether there is an error. The
-- empty text stands for no error.
unfoldable pub log_changed : Text → Text → Text × Bool × Bool
log_changed last cur =
    if text_eq cur last then (last, false, not (is_empty cur)) else (cur, true, not (is_empty cur))

-- The sources of device_names: one that fails is left out whole.
unfoldable pub read_files : Dict Addr DeviceInfo → List Reading → Dict Addr DeviceInfo
read_files m [] = m
read_files m (r ∷ rest) = read_files (if is_empty r.error then merge_all m r.entries else m) rest

-- The new learned table; the ARP table, if used, is read last and never left out.
unfoldable pub learn : List Reading → Option Reading → Dict Addr DeviceInfo
learn files none = read_files [] files
learn files (some arp) = merge_all (read_files [] files) arp.entries

-- One round of the loop that remembers the MACs; `choice` is what an eviction meets first.
unfoldable pub remember_one :
    ℕ → ℕ → Dict Addr HardwareAddr → Addr → DeviceInfo → Dict Addr HardwareAddr
remember_one max choice b addr info =
    if is_empty info.mac
    then b
    else let known = is_some (Dict.get addr_discrete addr b) in
      let room = if not known && leb max (length b) then Dict.evict addr_discrete choice b else b in
      Dict.put addr_discrete addr info.mac room

-- The loop over the learned table, in the order in which `range` walks it.
unfoldable pub remember :
    ℕ → (Addr → ℕ) → Dict Addr HardwareAddr → List (Addr × DeviceInfo) → Dict Addr HardwareAddr
remember max choice b [] = b
remember max choice b ((addr, info) ∷ rest) =
    remember max choice (remember_one max (choice addr) b addr info) rest

-- refresh; `order` is the learned table in the order of the range over it.
unfoldable pub refresh :
    (Addr → ℕ)
    → (Dict Addr DeviceInfo → List (Addr × DeviceInfo))
    → List Reading
    → Option Reading
    → DeviceDb
    → DeviceDb
refresh choice order files arp d =
    let learned = learn files arp in
    record d {
      learned = learned;
      bindings = remember d.max_bindings choice d.bindings (order learned);
    }
