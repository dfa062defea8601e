-- ===== src/Doh/Endpoints.antt =====
-- What the endpoints of a new client are.
use coredns_nextdns.Prelude.{
  ◌≡◌, ◌≢◌, inl, inr, subst, List, [], ◌∷◌, Bool, true, Option, some, arith, All, Bool-cases,
  Option-cases, if◌then◌else◌,
}
use coredns_nextdns.Prelude.Text.{Text, codes, is_empty}
use coredns_nextdns.Prelude.Fields.{trim_space, trim_suffix, before_byte, after_byte, split}
use coredns_nextdns.Prelude.Result.{ok, ◌>>=◌, >>=-eq-ok}
use coredns_nextdns.Doh.{Endpoint, has_any}
use coredns_nextdns.Doh.Setup.{
  Url, well_known, parse_addresses, parse_bootstrap, parse_spec, parse_endpoint, fill_bootstrap,
  build_endpoints,
}

module _ (is_ip : Text → Bool) (parse_url : Text → Option Url) where
  -- What an endpoint is, against what it was written as.
  pub record IsEndpoint (spec : Text) (ep : Endpoint) : Type 0 where
    pub url : Url
    pub boot : List Text
    pub parsed : parse_url (before_byte b'#' spec) ≡ some url
    pub https : url.scheme ≡ codes "https"
    pub hosted : url.host ≢ []
    pub host : ep.host ≡ url.hostname
    pub base : ep.base ≡ trim_suffix (codes "/") url.text
    pub addresses : All (λ ip. is_ip ip ≡ true) boot
    pub bootstrap : ep.bootstrap ≡ (if has_any boot then boot else well_known url.hostname)

  -- Each text with its endpoint.
  abbrev pub Matched : List Text → List Endpoint → Type 0
  Matched [] [] = Unit {0}
  Matched [] (ep ∷ eps) = ⊥
  Matched (s ∷ specs) [] = ⊥
  Matched (s ∷ specs) (ep ∷ eps) = IsEndpoint s ep × Matched specs eps

  parse_addresses-All :
      (parts boot : List Text)
      → parse_addresses is_ip parse_url parts ≡ ok boot
      → All (λ ip. is_ip ip ≡ true) boot
  unfolding parse_addresses
  parse_addresses-All [] [] e = tt
  parse_addresses-All [] (x ∷ boot) e = cc
  parse_addresses-All (part ∷ rest) boot e = elim (Bool-cases (is_empty (trim_space part))) [
    | inl b ↦ parse_addresses-All rest boot (ground (arith, e, b))
    | inr b ↦ elim (Bool-cases (is_ip (trim_space part))) [
      | inr c ↦ absurd (ground (arith, e, b, c))
      | inl c ↦
          let both : (parse_addresses is_ip parse_url rest >>= λ (l : List Text).
          ok (trim_space part ∷ l))
              ≡ ok boot =
            ground (arith, e, b, c) in
          let (l, one, same) =
            >>=-eq-ok (parse_addresses is_ip parse_url rest) (λ l. ok (trim_space part ∷ l)) both in
          let is : trim_space part ∷ l ≡ boot = cc in
          subst (All (λ ip. is_ip ip ≡ true)) is (c, parse_addresses-All rest l one)
    ]
  ]

  parse_bootstrap-All :
      (spec : Text) (boot : List Text)
      → parse_bootstrap is_ip parse_url spec ≡ ok boot
      → All (λ ip. is_ip ip ≡ true) boot
  unfolding parse_bootstrap
  parse_bootstrap-All spec [] e = tt
  parse_bootstrap-All spec (x ∷ boot) e =
      parse_addresses-All (split b',' (after_byte b'#' spec)) (x ∷ boot) (ground (arith, e))

  parse_endpoint-IsEndpoint :
      (spec : Text) (ep : Endpoint)
      → parse_endpoint is_ip parse_url spec ≡ ok ep
      → IsEndpoint spec (fill_bootstrap is_ip parse_url ep)
  unfolding parse_endpoint parse_spec fill_bootstrap
  parse_endpoint-IsEndpoint spec ep e =
      let (boot, booted, made) =
        >>=-eq-ok (parse_bootstrap is_ip parse_url spec)
          (λ b. parse_spec is_ip parse_url (before_byte b'#' spec) b) e in
      elim (Option-cases (parse_url (before_byte b'#' spec))) [
        | inl bad ↦ absurd (ground (arith, made, bad))
        | inr (u, good) ↦ record {
          url = u;
          boot = boot;
          parsed = good;
          https = ground (arith, made, good);
          hosted = λ z. ground (arith, made, good, z);
          host = ground (arith, made, good);
          base = ground (arith, made, good);
          addresses = parse_bootstrap-All spec boot booted;
          bootstrap = ground (arith, made, good);
        }
      ]

  -- An accepted list of endpoints is taken over one by one, in its order: each endpoint is read from
  -- its own text, uses https and names a host, and its bootstrap addresses are the valid ones that
  -- its text lists or, if it lists none, the well-known ones of its host.
  pub build_endpoints-IsEndpoint :
      (specs : List Text) (eps : List Endpoint)
      → build_endpoints is_ip parse_url specs ≡ ok eps
      → Matched specs eps
  unfolding build_endpoints
  build_endpoints-IsEndpoint [] [] e = tt
  build_endpoints-IsEndpoint [] (x ∷ eps) e = cc
  build_endpoints-IsEndpoint (s ∷ rest) eps e =
      let (ep, one, more) =
        >>=-eq-ok (parse_endpoint is_ip parse_url s)
          (λ ep. build_endpoints is_ip parse_url rest >>= λ (l : List Endpoint).
            ok (fill_bootstrap is_ip parse_url ep ∷ l))
          e in
      let (l, later, same) =
        >>=-eq-ok (build_endpoints is_ip parse_url rest)
          (λ l. ok (fill_bootstrap is_ip parse_url ep ∷ l)) more in
      let is : fill_bootstrap is_ip parse_url ep ∷ l ≡ eps = cc in
      subst (Matched (s ∷ rest)) is
        (parse_endpoint-IsEndpoint s ep one, build_endpoints-IsEndpoint rest l later)
