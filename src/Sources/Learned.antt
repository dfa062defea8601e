-- ===== src/Sources/Learned.antt =====
-- The refresh of the device tables from the files themselves: what ends up in the learned table.
use coredns_nextdns.Prelude.{
  ℕ, ◌≡◌, ◌⊎◌, inl, inr, refl, sym, ap, ◌∙◌, subst, List, [], ◌∷◌, ◌++◌, map, true, false, not,
  ◌||◌, Option, none, some, All, arith, if◌then◌else◌,
}
use coredns_nextdns.Prelude.Text.{Text, is_empty}
use coredns_nextdns.Prelude.Fields.{scan_lines}
use coredns_nextdns.Prelude.Dict
use coredns_nextdns.Prelude.Dict.{Dict}
use coredns_nextdns.Addr.{Addr, addr_discrete}
use coredns_nextdns.Config.{SourceSettings}
use coredns_nextdns.Device.{HardwareAddr, DeviceInfo, DeviceDb}
use coredns_nextdns.Device.Refresh.{merge, merge_info, merge_all, read_files, learn, refresh}
use coredns_nextdns.Sources.{
  dhcpd, store, Lease, unknown, no_lease, clean, open_lease, close_lease, dhcpd_step, dhcpd_lines,
  parse_as, Opened, contents, read, read_arp,
}
use coredns_nextdns.Sources.Dhcpd.{open_lease_cases, Opens, IsInside, Closes, said}
use coredns_nextdns.Sources.Dhcpd.Complete.{get-dhcpd_lines_last}

module _ (parse_addr : Text → Option Addr) (parse_mac : Text → Option HardwareAddr) where
  -- refresh, with what the configured files hold; `disk` is os.Open.
  unfoldable pub refresh_sources :
      (Text → Opened)
      → (Addr → ℕ)
      → (Dict Addr DeviceInfo → List (Addr × DeviceInfo))
      → SourceSettings
      → DeviceDb
      → DeviceDb
  refresh_sources disk choice order s d =
      refresh choice order (map (λ f. read parse_addr parse_mac f.0 (disk f.1)) s.files)
        (if s.use_arp then some (read_arp parse_addr parse_mac (disk s.arp_path)) else none) d

  merge_all_untouched :
      (m : Dict Addr DeviceInfo) (entries : List (Addr × DeviceInfo)) (j : Addr)
      → Dict.get addr_discrete j entries ≡ none
      → Dict.get addr_discrete j (merge_all m entries) ≡ Dict.get addr_discrete j m
  unfolding merge_all merge Dict.get
  merge_all_untouched m [] j h = refl
  merge_all_untouched m ((a, i) ∷ rest) j h = ground (
    arith,
    h,
    merge_all_untouched (merge m a i) rest j,
    Dict.get-put addr_discrete a j (merge_info (Dict.get addr_discrete a m) i) m,
  )

  get-merge_all_new :
      (m : Dict Addr DeviceInfo) (entries : List (Addr × DeviceInfo)) (j : Addr)
      → Dict.IsDistinct addr_discrete entries
      → Dict.get addr_discrete j m ≡ none
      → Dict.get addr_discrete j (merge_all m entries) ≡ Dict.get addr_discrete j entries
  unfolding merge_all merge merge_info Dict.get
  get-merge_all_new m [] j d h = h
  get-merge_all_new m ((a, i) ∷ rest) j (once, d) h = elim (addr_discrete a j) [
    | yes same ↦
        let here : Dict.get addr_discrete j rest ≡ none =
          subst (λ x. Dict.get addr_discrete x rest ≡ none) same once in
        ground (
          arith,
          same,
          h,
          merge_all_untouched (merge m a i) rest j here,
          Dict.get-put addr_discrete a j (merge_info (Dict.get addr_discrete a m) i) m,
        )
    | no other ↦
        let free : Dict.get addr_discrete j (merge m a i) ≡ none = ground (
          arith,
          other,
          h,
          Dict.get-put addr_discrete a j (merge_info (Dict.get addr_discrete a m) i) m,
        ) in
        ground (arith, other, get-merge_all_new (merge m a i) rest j d free)
  ]

  open_lease-out : (line : Text) (s : Lease) → (open_lease parse_addr parse_mac line s).out ≡ s.out
  unfolding open_lease
  open_lease-out line s = elim (open_lease_cases parse_addr parse_mac line s) [
    | inl (short, e) ↦ ap (λ (x : Lease). x.out) e
    | inr (inl e) ↦ ap (λ (x : Lease). x.out) e
    | inr (inr (a, named, e)) ↦ ap (λ (x : Lease). x.out) e
  ]

  out-cases :
      (line : Text) (s : Lease)
      → ((dhcpd_step parse_addr parse_mac line s).out ≡ s.out)
        ⊎ ((dhcpd_step parse_addr parse_mac line s).out ≡ store s.cur s.info s.out)
  unfolding dhcpd_step close_lease
  out-cases line s = ground (arith, open_lease-out line s)

  step-IsDistinct :
      (line : Text) (s : Lease)
      → Dict.IsDistinct addr_discrete s.out
      → Dict.IsDistinct addr_discrete (dhcpd_step parse_addr parse_mac line s).out
  step-IsDistinct line s h = elim (out-cases line s) [
    | inl same ↦ subst (Dict.IsDistinct addr_discrete) (sym same) h
    | inr more ↦
        subst (Dict.IsDistinct addr_discrete) (sym more)
          (Dict.put-IsDistinct addr_discrete s.cur s.info s.out h)
  ]

  dhcpd_lines-IsDistinct :
      (s : Lease) (lines : List Text)
      → Dict.IsDistinct addr_discrete s.out
      → Dict.IsDistinct addr_discrete (dhcpd_lines parse_addr parse_mac s lines).out
  unfolding dhcpd_lines
  dhcpd_lines-IsDistinct s [] h = h
  dhcpd_lines-IsDistinct s (line ∷ rest) h =
      dhcpd_lines-IsDistinct (dhcpd_step parse_addr parse_mac (clean line) s) rest
        (step-IsDistinct (clean line) s h)

  -- From the file to the table that queries read: with a dhcpd lease file as the only source, a
  -- refresh makes of a whole lease at the end of the file what the learned table says of its
  -- address, whatever the file holds before it and whatever was learned before.
  pub get-refresh_sources :
      (disk : Text → Opened) (choice : Addr → ℕ)
      (order : Dict Addr DeviceInfo → List (Addr × DeviceInfo)) (s : SourceSettings) (d : DeviceDb)
      (path t : Text) (before : List Text) (head : Text) (body : List Text) (close : Text)
      (a : Addr)
      → s.files ≡ (dhcpd, path) ∷ []
      → s.use_arp ≡ false
      → disk path ≡ contents t
      → scan_lines t ≡ (before ++ (head ∷ (body ++ (close ∷ []))), false)
      → Opens parse_addr parse_mac head a
      → All (IsInside parse_addr parse_mac) body
      → Closes parse_addr parse_mac close
      → (let i = said parse_addr parse_mac unknown body in
          not (is_empty i.name) || not (is_empty i.mac))
        ≡ true
      → Dict.get addr_discrete a (refresh_sources disk choice order s d).learned
        ≡ some (said parse_addr parse_mac unknown body)
  unfolding refresh_sources refresh learn read_files read parse_as Dict.get
  get-refresh_sources disk choice order s d path t before head body close a one quiet there lines
        opens inside closes informs =
      let file = before ++ (head ∷ (body ++ (close ∷ []))) in
      let out = (dhcpd_lines parse_addr parse_mac no_lease file).out in
      let reading : read parse_addr parse_mac dhcpd (disk path)
          ≡ record { error = []; entries = out } =
        rw (there, read, lines) refl in
      let learned : (refresh_sources disk choice order s d).learned ≡ merge_all [] out =
        rw (one, quiet, reading) refl in
      ap (Dict.get addr_discrete a) learned
      ∙ get-merge_all_new [] out a (dhcpd_lines-IsDistinct no_lease file tt) refl
      ∙ get-dhcpd_lines_last parse_addr parse_mac before head body close a opens inside closes
          informs
