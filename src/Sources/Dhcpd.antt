-- ===== src/Sources/Dhcpd.antt =====
-- The parser of dhcpd leases: what a whole lease in a file is, and what each line does.
pub mod Sound
pub mod Complete
use coredns_nextdns.Prelude.{
  subst, ℕ, ◌+◌, ◌≡◌, ◌≢◌, ◌<◌, refl, sym, ap, ◌∙◌, ◌⊎◌, inl, inr, List, [], ◌∷◌, ◌++◌, Bool, true,
  false, not, ◌||◌, Option, none, some, arith, Option-cases, Bool-cases, All, All-append, length,
  append_assoc, append-nil, if◌then◌else◌,
}
use coredns_nextdns.Prelude.Text.{Text, codes, text_eq, is_empty}
use coredns_nextdns.Prelude.Fields.{fields}
use coredns_nextdns.Prelude.Dict
use coredns_nextdns.Addr.{Addr, addr_discrete, unmap}
use coredns_nextdns.Device.{HardwareAddr, DeviceInfo}
use coredns_nextdns.Sources.{
  Lease, unknown, no_lease, clean, is_lease, open_lease, lease_line, close_lease, dhcpd_step,
  dhcpd_lines, store,
}

fields-cases :
    (f : List Text) → (length f < 2) ⊎ ((a b : Text) × (rest : List Text) × (f ≡ a ∷ b ∷ rest))
fields-cases [] = inl (omega arith)
fields-cases (a ∷ []) = inl (omega arith)
fields-cases (a ∷ b ∷ rest) = inr (a, b, rest, refl)

module _ (parse_addr : Text → Option Addr) (parse_mac : Text → Option HardwareAddr) where
  -- The address that a `lease` line names.
  unfoldable pub lease_addr : Text → Option Addr
  lease_addr line = elim (fields line) [
    | tag ∷ ip ∷ rest ↦ elim (parse_addr ip) [ none ↦ none | some addr ↦ some (unmap addr) ]
    | _ ↦ none
  ]

  -- What the lines of a lease say of the device, after what is known before them.
  unfoldable pub said : DeviceInfo → List Text → DeviceInfo
  said info [] = info
  said info (line ∷ rest) =
      said
        (if is_lease (clean line) then info else lease_line parse_addr parse_mac (clean line) info)
        rest

  -- The line opens a lease of the address.
  abbrev pub Opens : Text → Addr → Type 0
  Opens line a = (is_lease (clean line) ≡ true) × (lease_addr (clean line) ≡ some a)

  -- The line neither opens nor closes a lease; a `lease` line without a second field is passed over.
  abbrev pub IsInside : Text → Type 0
  IsInside line =
      ((is_lease (clean line) ≡ true) × (length (fields (clean line)) < 2))
      ⊎ ((is_lease (clean line) ≡ false) × (text_eq (clean line) (codes "}") ≡ false))

  abbrev pub Closes : Text → Type 0
  Closes line = (is_lease (clean line) ≡ false) × (text_eq (clean line) (codes "}") ≡ true)

  -- The lines hold a whole lease of the address that says `i`, and says something.
  pub record Leased (lines : List Text) (a : Addr) (i : DeviceInfo) : Type 0 where
    pub before : List Text
    pub head : Text
    pub body : List Text
    pub close : Text
    pub after : List Text
    pub splits : lines ≡ before ++ (head ∷ (body ++ (close ∷ after)))
    pub opens : Opens head a
    pub inside : All IsInside body
    pub closes : Closes close
    pub says : said unknown body ≡ i
    pub informs : (not (is_empty i.name) || not (is_empty i.mac)) ≡ true

  pub said-append :
      (info : DeviceInfo) (xs ys : List Text) → said info (xs ++ ys) ≡ said (said info xs) ys
  unfolding said
  said-append info [] ys = refl
  said-append info (x ∷ xs) ys =
      said-append
        (if is_lease (clean x) then info else lease_line parse_addr parse_mac (clean x) info) xs ys

  -- What a `lease` line does: nothing, the end of the lease before, or a new lease.
  pub open_lease_cases :
      (line : Text) (s : Lease)
      → ((length (fields line) < 2) × (open_lease parse_addr parse_mac line s ≡ s))
        ⊎ (open_lease parse_addr parse_mac line s ≡ record s { in_tag = false })
        ⊎ ((a : Addr) × (lease_addr line ≡ some a)
            × (open_lease parse_addr parse_mac line s
                ≡ record s { cur = a; info = unknown; in_tag = true }))
  unfolding open_lease lease_addr
  open_lease_cases line s = elim (fields-cases (fields line)) [
    | inl short ↦ inl (short, ground (arith, short))
    | inr (tag, ip, rest, e) ↦ elim (Option-cases (parse_addr ip)) [
      | inl f ↦ inr (inl (rw (open_lease, e, f) refl))
      | inr (x, f) ↦ inr (inr (unmap x, rw (lease_addr, e, f) refl, rw (open_lease, e, f) refl))
    ]
  ]

  pub close_silent :
      (s : Lease)
      → (not (is_empty s.info.name) || not (is_empty s.info.mac)) ≡ false
      → close_lease parse_addr parse_mac s ≡ record s { in_tag = false }
  unfolding close_lease
  close_silent s e = ground arith

  pub close_informs :
      (s : Lease)
      → (not (is_empty s.info.name) || not (is_empty s.info.mac)) ≡ true
      → close_lease parse_addr parse_mac s
        ≡ record s { in_tag = false; out = store s.cur s.info s.out }
  unfolding close_lease
  close_informs s e = ground arith

  pub step_outside :
      (line : Text) (s : Lease)
      → is_lease line ≡ false
      → s.in_tag ≡ false
      → dhcpd_step parse_addr parse_mac line s ≡ s
  unfolding dhcpd_step
  step_outside line s e t = ground arith

  pub step_closing :
      (line : Text) (s : Lease)
      → is_lease line ≡ false
      → s.in_tag ≡ true
      → text_eq line (codes "}") ≡ true
      → dhcpd_step parse_addr parse_mac line s ≡ close_lease parse_addr parse_mac s
  unfolding dhcpd_step
  step_closing line s e t c = ground arith

  pub step_inside :
      (line : Text) (s : Lease)
      → is_lease line ≡ false
      → s.in_tag ≡ true
      → text_eq line (codes "}") ≡ false
      → dhcpd_step parse_addr parse_mac line s
        ≡ record s { info = lease_line parse_addr parse_mac line s.info }
  unfolding dhcpd_step
  step_inside line s e t c = ground arith
