-- ===== src/Sources/Dhcpd/Sound.antt =====
-- Which lines of a file of dhcpd leases an entry of its table comes from.
use coredns_nextdns.Prelude.{
  subst, ◌≡◌, refl, sym, ap, ◌∙◌, inl, inr, List, [], ◌∷◌, ◌++◌, true, not, ◌||◌, Option, some,
  arith, Bool-cases, All, All-append, append_assoc, append-nil,
}
use coredns_nextdns.Prelude.Text.{Text, codes, text_eq, is_empty}
use coredns_nextdns.Prelude.Dict
use coredns_nextdns.Addr.{Addr, addr_discrete}
use coredns_nextdns.Device.{HardwareAddr, DeviceInfo}
use coredns_nextdns.Sources.{
  Lease, unknown, no_lease, clean, is_lease, open_lease, close_lease, dhcpd_step, dhcpd_lines,
}
use coredns_nextdns.Sources.Dhcpd.{
  said, Opens, IsInside, Closes, Leased, said-append, open_lease_cases, close_silent, close_informs,
  step_outside, step_closing, step_inside,
}

module _ (parse_addr : Text → Option Addr) (parse_mac : Text → Option HardwareAddr) where
  -- The lines end within a lease of the address that has said `i` so far.
  record IsOpen (lines : List Text) (a : Addr) (i : DeviceInfo) : Type 0 where
    before : List Text
    head : Text
    body : List Text
    splits : lines ≡ before ++ (head ∷ body)
    opens : (Opens parse_addr parse_mac) head a
    inside : All (IsInside parse_addr parse_mac) body
    says : (said parse_addr parse_mac) unknown body ≡ i

  record Reached (lines : List Text) (s : Lease) : Type 0 where
    stored :
        (a : Addr) (i : DeviceInfo)
        → Dict.get addr_discrete a s.out ≡ some i
        → (Leased parse_addr parse_mac) lines a i
    open_lease : s.in_tag ≡ true → IsOpen lines s.cur s.info

  Leased-append :
      (lines : List Text) (a : Addr) (i : DeviceInfo) (line : Text)
      → (Leased parse_addr parse_mac) lines a i
      → (Leased parse_addr parse_mac) (lines ++ line ∷ []) a i
  Leased-append lines a i line l = record {
    before = l.before;
    head = l.head;
    body = l.body;
    close = l.close;
    after = l.after ++ line ∷ [];
    splits = rw (l.splits) (simp (append_assoc));
    opens = l.opens;
    inside = l.inside;
    closes = l.closes;
    says = l.says;
    informs = l.informs;
  }

  -- A line inside the lease.
  IsOpen-append :
      (lines : List Text) (a : Addr) (i : DeviceInfo) (line : Text)
      → (IsInside parse_addr parse_mac) line
      → IsOpen lines a i
      → IsOpen (lines ++ line ∷ []) a ((said parse_addr parse_mac) i (line ∷ []))
  IsOpen-append lines a i line here o = record {
    before = o.before;
    head = o.head;
    body = o.body ++ line ∷ [];
    splits = rw (o.splits) (simp (append_assoc));
    opens = o.opens;
    inside = All-append (IsInside parse_addr parse_mac) o.body (line ∷ []) o.inside (here, tt);
    says =
        (said-append parse_addr parse_mac) unknown o.body (line ∷ [])
        ∙ ap (λ x. (said parse_addr parse_mac) x (line ∷ [])) o.says;
  }

  Leased-close :
      (lines : List Text) (a : Addr) (i : DeviceInfo) (line : Text)
      → (Closes parse_addr parse_mac) line
      → (not (is_empty i.name) || not (is_empty i.mac)) ≡ true
      → IsOpen lines a i
      → (Leased parse_addr parse_mac) (lines ++ line ∷ []) a i
  Leased-close lines a i line c informs o = record {
    before = o.before;
    head = o.head;
    body = o.body;
    close = line;
    after = [];
    splits = rw (o.splits) (simp (append_assoc));
    opens = o.opens;
    inside = o.inside;
    closes = c;
    says = o.says;
    informs = informs;
  }

  IsOpen-start :
      (lines : List Text) (a : Addr) (line : Text)
      → (Opens parse_addr parse_mac) line a
      → IsOpen (lines ++ line ∷ []) a unknown
  unfolding said
  IsOpen-start lines a line o = record {
    before = lines;
    head = line;
    body = [];
    splits = refl;
    opens = o;
    inside = tt;
    says = refl;
  }

  step-Reached_lease :
      (lines : List Text) (line : Text) (s : Lease)
      → is_lease (clean line) ≡ true
      → Reached lines s
      → Reached (lines ++ line ∷ []) (open_lease parse_addr parse_mac (clean line) s)
  unfolding said
  step-Reached_lease lines line s e h =
      elim ((open_lease_cases parse_addr parse_mac) (clean line) s) [
        | inl (short, same) ↦ rw same (record {
          stored = λ a i g. Leased-append lines a i line (h.stored a i g);
          open_lease = λ t.
              subst (λ i. IsOpen (lines ++ line ∷ []) s.cur i) (rw e refl)
                (IsOpen-append lines s.cur s.info line (inl (e, short)) (h.open_lease t));
        })
        | inr (inl same) ↦ rw same (record {
          stored = λ a i g. Leased-append lines a i line (h.stored a i g);
          open_lease = λ t. cc;
        })
        | inr (inr (a, named, same)) ↦ rw same (record {
          stored = λ b i g. Leased-append lines b i line (h.stored b i g);
          open_lease = λ t. IsOpen-start lines a line (e, named);
        })
      ]

  step-Reached_close :
      (lines : List Text) (line : Text) (s : Lease)
      → (Closes parse_addr parse_mac) line
      → s.in_tag ≡ true
      → Reached lines s
      → Reached (lines ++ line ∷ []) (close_lease parse_addr parse_mac s)
  step-Reached_close lines line s c t h =
      elim (Bool-cases (not (is_empty s.info.name) || not (is_empty s.info.mac))) [
        | inr e ↦
            subst (λ x. Reached (lines ++ line ∷ []) x)
              (sym ((close_silent parse_addr parse_mac) s e))
              (record {
                stored = λ a i g. Leased-append lines a i line (h.stored a i g);
                open_lease = λ x. cc;
              })
        | inl e ↦
            subst (λ x. Reached (lines ++ line ∷ []) x)
              (sym ((close_informs parse_addr parse_mac) s e))
              (record {
                stored = λ a i g. elim (addr_discrete s.cur a) [
                  | yes p ↦
                      let same : s.info ≡ i =
                        ground (arith, Dict.get-put addr_discrete s.cur a s.info s.out) in
                      let closed = Leased-close lines s.cur s.info line c e (h.open_lease t) in
                      subst (λ b. (Leased parse_addr parse_mac) (lines ++ line ∷ []) b i) p
                        (subst (λ x. (Leased parse_addr parse_mac) (lines ++ line ∷ []) s.cur x)
                          same closed)
                  | no q ↦ Leased-append lines a i line (
                      h.stored a i
                        (ground (arith, Dict.get-put addr_discrete s.cur a s.info s.out)))
                ];
                open_lease = λ x. cc;
              })
      ]

  step-Reached :
      (lines : List Text) (line : Text) (s : Lease)
      → Reached lines s
      → Reached (lines ++ line ∷ []) (dhcpd_step parse_addr parse_mac (clean line) s)
  unfolding said dhcpd_step
  step-Reached lines line s h = elim (Bool-cases (is_lease (clean line))) [
    | inl e ↦ rw (dhcpd_step, e) (step-Reached_lease lines line s e h)
    | inr e ↦ elim (Bool-cases s.in_tag) [
      | inr out ↦
          subst (λ x. Reached (lines ++ line ∷ []) x)
            (sym ((step_outside parse_addr parse_mac) (clean line) s e out))
            (record {
              stored = λ a i g. Leased-append lines a i line (h.stored a i g);
              open_lease = λ t. cc;
            })
      | inl t ↦ elim (Bool-cases (text_eq (clean line) (codes "}"))) [
        | inl c ↦
            subst (λ x. Reached (lines ++ line ∷ []) x)
              (sym ((step_closing parse_addr parse_mac) (clean line) s e t c))
              (step-Reached_close lines line s (e, c) t h)
        | inr c ↦
            subst (λ x. Reached (lines ++ line ∷ []) x)
              (sym ((step_inside parse_addr parse_mac) (clean line) s e t c))
              (record {
                stored = λ a i g. Leased-append lines a i line (h.stored a i g);
                open_lease = λ x.
                    subst (λ i. IsOpen (lines ++ line ∷ []) s.cur i) (rw e refl)
                      (IsOpen-append lines s.cur s.info line (inr (e, c)) (h.open_lease t));
              })
      ]
    ]
  ]

  lines-Reached :
      (done lines : List Text) (s : Lease)
      → Reached done s
      → Reached (done ++ lines) (dhcpd_lines parse_addr parse_mac s lines)
  unfolding dhcpd_lines
  lines-Reached done [] s h = rw append-nil h
  lines-Reached done (line ∷ rest) s h =
      subst (λ l. Reached l (dhcpd_lines parse_addr parse_mac s (line ∷ rest)))
        (append_assoc done (line ∷ []) rest)
        (lines-Reached (done ++ line ∷ []) rest (dhcpd_step parse_addr parse_mac (clean line) s)
          (step-Reached done line s h))

  -- Every entry of the table comes from one whole lease of its address in the file: a `lease` line
  -- that names the address, lines of which none opens or closes a lease, and a closing brace; it
  -- says what these lines say, in their order, and says something. No line of another lease counts.
  pub get-dhcpd_lines :
      (lines : List Text) (a : Addr) (i : DeviceInfo)
      → Dict.get addr_discrete a (dhcpd_lines parse_addr parse_mac no_lease lines).out ≡ some i
      → (Leased parse_addr parse_mac) lines a i
  unfolding Dict.get
  get-dhcpd_lines lines a i g =
      (lines-Reached [] lines no_lease
          (record { stored = λ b x e. absurd (ground (arith, e)); open_lease = λ t. cc })).stored
        a i g
