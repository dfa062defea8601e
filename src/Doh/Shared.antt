-- ===== src/Doh/Shared.antt =====
-- A list of bootstrap addresses for all endpoints reaches each that lists none.
use coredns_nextdns.Prelude.{
  ◌≡◌, ◌≢◌, inl, inr, refl, ◌∙◌, subst, List, [], ◌∷◌, ◌++◌, Bool, true, false, Option, arith, All,
  Any,
}
use coredns_nextdns.Prelude.Text.{Text, codes, is_empty}
use coredns_nextdns.Prelude.Fields.{trim_space, has_byte, join}
use coredns_nextdns.Prelude.Fields.Join.{split-join, after_byte-append, has_byte-append}
use coredns_nextdns.Prelude.Result.{ok, err, ◌>>=◌, >>=-eq-ok}
use coredns_nextdns.Doh.{Endpoint, DohClient, dial, plain}
use coredns_nextdns.Doh.Bootstrap.{Declares, dial-plain_iff}
use coredns_nextdns.Doh.Setup.{
  Url, DohOptions, HttpSettings, with_bootstrap, apply_bootstrap, parse_addresses, parse_bootstrap,
  parse_spec, parse_endpoint, fill_bootstrap, build_endpoints, new_doh_client,
}

module _ (is_ip : Text → Bool) (parse_url : Text → Option Url) where
  -- An address as one writes it behind `bootstrap`.
  abbrev pub IsAddress : Text → Type 0
  IsAddress b =
      (is_ip b ≡ true) × (trim_space b ≡ b) × (is_empty b ≡ false) × (has_byte b',' b ≡ false)

  abbrev pub LacksAddresses : Text → Type 0
  LacksAddresses spec = has_byte b'#' spec ≡ false

  parse_addresses_all : (l : List Text) → All IsAddress l → parse_addresses is_ip parse_url l ≡ ok l
  unfolding parse_addresses
  parse_addresses_all [] h = refl
  parse_addresses_all (b ∷ l) ((ip, trimmed, there, comma), h) =
      rw (trimmed, there, ip, parse_addresses_all l h) refl

  commas : (l : List Text) → All IsAddress l → All (λ v. has_byte b',' v ≡ false) l
  commas [] h = tt
  commas (b ∷ l) ((ip, trimmed, there, comma), h) = (comma, commas l h)

  -- The text of an endpoint with the addresses behind it.
  parse_endpoint_shared :
      (spec b : Text) (l : List Text) (ep : Endpoint)
      → LacksAddresses spec
      → All IsAddress (b ∷ l)
      → parse_endpoint is_ip parse_url (spec ++ b'#' ∷ join b',' (b ∷ l)) ≡ ok ep
      → (fill_bootstrap is_ip parse_url ep).bootstrap ≡ b ∷ l
  unfolding parse_endpoint parse_bootstrap parse_spec fill_bootstrap
  parse_endpoint_shared spec b l ep lacks h e =
      let boot : parse_bootstrap is_ip parse_url (spec ++ b'#' ∷ join b',' (b ∷ l)) ≡ ok (b ∷ l) =
        rw
          (
            parse_bootstrap,
            has_byte-append b'#' spec (join b',' (b ∷ l)),
            after_byte-append b'#' spec (join b',' (b ∷ l)) lacks,
            split-join b',' b l h.0.3 (commas l h.1),
          )
          (parse_addresses_all (b ∷ l) h) in
      ground (arith, e, boot)

  build_shared :
      (b : Text) (l specs : List Text) (eps : List Endpoint)
      → All IsAddress (b ∷ l)
      → All LacksAddresses specs
      → build_endpoints is_ip parse_url (with_bootstrap (b ∷ l) specs) ≡ ok eps
      → All (λ ep. ep.bootstrap ≡ b ∷ l) eps
  unfolding build_endpoints with_bootstrap
  build_shared b l [] [] h lacks e = tt
  build_shared b l [] (x ∷ eps) h lacks e = cc
  build_shared b l (s ∷ specs) eps h (bare, lacks) e =
      let text = s ++ b'#' ∷ join b',' (b ∷ l) in
      let e' : (parse_endpoint is_ip parse_url text >>= λ (ep : Endpoint).
      build_endpoints is_ip parse_url (with_bootstrap (b ∷ l) specs) >>= λ (r : List Endpoint).
      ok (fill_bootstrap is_ip parse_url ep ∷ r))
          ≡ ok eps =
        rw bare at e in
      let (ep, one, more) =
        >>=-eq-ok (parse_endpoint is_ip parse_url text)
          (λ ep.
            build_endpoints is_ip parse_url (with_bootstrap (b ∷ l) specs)
            >>= λ (r : List Endpoint). ok (fill_bootstrap is_ip parse_url ep ∷ r))
          e' in
      let (r, later, same) =
        >>=-eq-ok (build_endpoints is_ip parse_url (with_bootstrap (b ∷ l) specs))
          (λ r. ok (fill_bootstrap is_ip parse_url ep ∷ r)) more in
      let is : fill_bootstrap is_ip parse_url ep ∷ r ≡ eps = cc in
      subst (All (λ x. x.bootstrap ≡ b ∷ l)) is
        (parse_endpoint_shared s b l ep bare h one, build_shared b l specs r h lacks later)

  client_endpoints :
      (o : DohOptions) (c : DohClient) (settings : HttpSettings) (s : Text) (rest : List Text)
      → o.endpoints ≡ s ∷ rest
      → new_doh_client is_ip parse_url o ≡ ok (c, settings)
      → build_endpoints is_ip parse_url (s ∷ rest) ≡ ok c.endpoints
  unfolding new_doh_client
  client_endpoints o c settings s rest same e =
      elim (build_endpoints is_ip parse_url (s ∷ rest))
          as (λ r. (build_endpoints is_ip parse_url (s ∷ rest) ≡ r) → r ≡ ok c.endpoints) [
            | ok eps ↦ λ f. ground (arith, e, same, f)
            | err x ↦ λ f. absurd (ground (arith, e, same, f))
          ]
        refl

  applied :
      (b : Text) (l specs : List Text)
      → All LacksAddresses specs
      → (x : Text) × (xs : List Text) × (apply_bootstrap specs (b ∷ l)
          ≡ with_bootstrap (b ∷ l) (x ∷ xs))
        × All LacksAddresses (x ∷ xs)
  unfolding apply_bootstrap has_byte
  applied b l [] lacks = (codes "https://dns.nextdns.io", [], refl, (refl, tt))
  applied b l (s ∷ specs) lacks = (s, specs, refl, lacks)

  declared :
      (host b : Text) (l : List Text) (eps : List Endpoint)
      → Any (λ ep. ep.host ≡ host) eps
      → All (λ ep. ep.bootstrap ≡ b ∷ l) eps
      → Any (Declares host) eps
  declared host b l [] named all = named
  declared host b l (ep ∷ eps) (inl e) (f, all) = inl (e, λ none_left. ground (arith, f, none_left))
  declared host b l (ep ∷ eps) (inr named) (f, all) = inr (declared host b l eps named all)

  -- The client that a `bootstrap` line makes, for endpoints that list no addresses of their own,
  -- and for the default one: every endpoint declares the addresses of that line, so that no host of
  -- an endpoint is ever dialled by name, whatever fails.
  pub bootstrap-never_plain :
      (b : Text) (l specs : List Text) (o : DohOptions) (c : DohClient) (settings : HttpSettings)
      (is4 reach : Text → Bool) (network host : Text)
      → All IsAddress (b ∷ l)
      → All LacksAddresses specs
      → o.endpoints ≡ apply_bootstrap specs (b ∷ l)
      → new_doh_client is_ip parse_url o ≡ ok (c, settings)
      → Any (λ ep. ep.host ≡ host) c.endpoints
      → (dial is4 reach network host c).0 ≢ plain
  unfolding with_bootstrap
  bootstrap-never_plain b l specs o c settings is4 reach network host h lacks from e named plainly =
      let (x, xs, same, bare) = applied b l specs lacks in
      let built = client_endpoints o c settings _ _ (from ∙ same) e in
      let all = build_shared b l (x ∷ xs) c.endpoints h bare built in
      (dial-plain_iff is4 reach network host c).0 plainly (declared host b l c.endpoints named all)
