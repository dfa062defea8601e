-- ===== src/Sources/Dhcpd/Complete.antt =====
-- A whole lease at the end of a file of dhcpd leases decides what the table says of its address.
use coredns_nextdns.Prelude.{
  ◌≡◌, refl, ap, ◌∙◌, inl, inr, List, [], ◌∷◌, ◌++◌, true, false, not, ◌||◌, Option, some, arith,
  All,
}
use coredns_nextdns.Prelude.Text.{Text, is_empty}
use coredns_nextdns.Prelude.Dict
use coredns_nextdns.Addr.{Addr, addr_discrete}
use coredns_nextdns.Device.{HardwareAddr}
use coredns_nextdns.Sources.{
  Lease, unknown, no_lease, clean, is_lease, open_lease, dhcpd_step, dhcpd_lines, store,
}
use coredns_nextdns.Sources.Dhcpd.{
  lease_addr, said, Opens, IsInside, Closes, close_informs, step_closing,
}

module _ (parse_addr : Text → Option Addr) (parse_mac : Text → Option HardwareAddr) where
  lines-append :
      (s : Lease) (xs ys : List Text)
      → dhcpd_lines parse_addr parse_mac s (xs ++ ys)
        ≡ dhcpd_lines parse_addr parse_mac (dhcpd_lines parse_addr parse_mac s xs) ys
  unfolding dhcpd_lines
  lines-append s [] ys = refl
  lines-append s (x ∷ xs) ys = lines-append (dhcpd_step parse_addr parse_mac (clean x) s) xs ys

  open_lease_lem :
      (line : Text) (s : Lease) (a : Addr)
      → lease_addr parse_addr parse_mac line ≡ some a
      → open_lease parse_addr parse_mac line s ≡ record s { cur = a; info = unknown; in_tag = true }
  unfolding open_lease lease_addr
  open_lease_lem line s a e = ground (arith, e)

  opened_lem :
      (line : Text) (s : Lease) (a : Addr)
      → is_lease line ≡ true
      → lease_addr parse_addr parse_mac line ≡ some a
      → dhcpd_step parse_addr parse_mac line s ≡ record s { cur = a; info = unknown; in_tag = true }
  unfolding dhcpd_step
  opened_lem line s a lease named = rw (lease) (open_lease_lem line s a named)

  step_body :
      (line : Text) (s : Lease)
      → s.in_tag ≡ true
      → IsInside parse_addr parse_mac line
      → dhcpd_step parse_addr parse_mac (clean line) s
        ≡ record s { info = said parse_addr parse_mac s.info (line ∷ []) }
  unfolding dhcpd_step open_lease said
  step_body line s t (inl (lease, short)) = ground (arith, lease, short)
  step_body line s t (inr (e, c)) = ground (arith, e, c)

  -- The lines inside a lease leave its address and the table alone, and gather what they say.
  body_lines :
      (body : List Text) (s : Lease)
      → s.in_tag ≡ true
      → All (IsInside parse_addr parse_mac) body
      → dhcpd_lines parse_addr parse_mac s body
        ≡ record s { info = said parse_addr parse_mac s.info body }
  unfolding dhcpd_lines said
  body_lines [] s t h = refl
  body_lines (line ∷ rest) s t (here, later) =
      let s' = record s { info = said parse_addr parse_mac s.info (line ∷ []) } in
      ap (λ x. dhcpd_lines parse_addr parse_mac x rest) (step_body line s t here)
      ∙ body_lines rest s' t later

  closed_lem :
      (line : Text) (s : Lease)
      → Closes parse_addr parse_mac line
      → s.in_tag ≡ true
      → (not (is_empty s.info.name) || not (is_empty s.info.mac)) ≡ true
      → dhcpd_step parse_addr parse_mac (clean line) s
        ≡ record s { in_tag = false; out = store s.cur s.info s.out }
  closed_lem line s (e, c) t informs =
      step_closing parse_addr parse_mac (clean line) s e t c
      ∙ close_informs parse_addr parse_mac s informs

  -- Only the last lease of an address counts: after any lines at all, even within another lease, a
  -- whole lease that says something is what the table says of its address.
  pub get-dhcpd_lines_last :
      (before : List Text) (head : Text) (body : List Text) (close : Text) (a : Addr)
      → Opens parse_addr parse_mac head a
      → All (IsInside parse_addr parse_mac) body
      → Closes parse_addr parse_mac close
      → (let i = said parse_addr parse_mac unknown body in
          not (is_empty i.name) || not (is_empty i.mac))
        ≡ true
      → Dict.get addr_discrete a
          (dhcpd_lines parse_addr parse_mac no_lease
            (before ++ (head ∷ (body ++ (close ∷ []))))).out
        ≡ some (said parse_addr parse_mac unknown body)
  unfolding dhcpd_lines
  get-dhcpd_lines_last before head body close a (lease, named) inside closes informs =
      let i = said parse_addr parse_mac unknown body in
      let s = dhcpd_lines parse_addr parse_mac no_lease before in
      let opened : Lease = record s { cur = a; info = unknown; in_tag = true } in
      let at_head : dhcpd_step parse_addr parse_mac (clean head) s ≡ opened =
        opened_lem (clean head) s a lease named in
      let run =
        lines-append no_lease before (head ∷ (body ++ (close ∷ [])))
        ∙ ap (λ x. dhcpd_lines parse_addr parse_mac x (body ++ (close ∷ []))) at_head
        ∙ lines-append opened body (close ∷ [])
        ∙ ap (λ x. dhcpd_lines parse_addr parse_mac x (close ∷ []))
            (body_lines body opened refl inside)
        ∙ closed_lem close (record opened { info = i }) closes refl informs in
      ap (λ (x : Lease). Dict.get addr_discrete a x.out) run
      ∙ ground (arith, Dict.get-put addr_discrete a a i s.out)
