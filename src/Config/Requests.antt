-- ===== src/Config/Requests.antt =====
-- What an accepted configuration lets onto the wire: the address that a query is posted to.
use coredns_nextdns.Prelude.{
  ap, sym, ◌∙◌, ◌==◌, ◌≡◌, ◌≢◌, refl, List, [], ◌∷◌, ◌++◌, true, false, arith, ℕ,
}
use coredns_nextdns.Prelude.Text.{Text, text_discrete}
use coredns_nextdns.Prelude.Fields.{split, has_byte, before_byte}
use coredns_nextdns.Prelude.Fields.Join.{split-last}
use coredns_nextdns.Prelude.Result.{ok}
use coredns_nextdns.Device.{ClientInfo}
use coredns_nextdns.Device.Name.{is_alnum}
use coredns_nextdns.Doh.{Endpoint}
use coredns_nextdns.Doh.Request.{new_request}
use coredns_nextdns.Routing.{Asked, profile_for, passthrough, all_bytes, valid_profile, valid_route}
use coredns_nextdns.Routing.Valid.{IsRoute}
use coredns_nextdns.Config.{Parsers, Block}
use coredns_nextdns.Config.Parse.{Configured, parse_nextdns}
use coredns_nextdns.Config.Accepted.{profile_for-parse_nextdns}

lacks_byte :
    (c : ℕ) (t : Text) → is_alnum c ≡ false → all_bytes is_alnum t ≡ true → has_byte c t ≡ false
unfolding all_bytes has_byte
lacks_byte c [] n h = ground arith
lacks_byte c (x ∷ t) n h = ground (arith, n, h, lacks_byte c t n)

IsRoute-alnum : (p : Text) → IsRoute p → p ≢ passthrough → all_bytes is_alnum p ≡ true
unfolding valid_route valid_profile
IsRoute-alnum p r not_on = elim (text_discrete p passthrough) [
  | yes same ↦ absurd (not_on same)
  | no other ↦ ground (arith, r)
]

-- The address without its query and its fragment: what stands before the first `?` and `#`.
abbrev pub before_query : Text → Text
before_query url = before_byte b'?' (before_byte b'#' url)

before_byte_lacks : (c : ℕ) (t : Text) → has_byte c t ≡ false → before_byte c t ≡ t
unfolding before_byte has_byte
before_byte_lacks c [] h = refl
before_byte_lacks c (x ∷ t) h = ground (arith, h, before_byte_lacks c t)

has_byte-append_lacks :
    (c : ℕ) (s : Text) (x : ℕ) (t : Text)
    → has_byte c s ≡ false
    → (x == c) ≡ false
    → has_byte c t ≡ false
    → has_byte c (s ++ x ∷ t) ≡ false
unfolding has_byte
has_byte-append_lacks c [] x t h other k = ground (arith, other, k)
has_byte-append_lacks c (y ∷ s) x t h other k = ground (arith, h, has_byte-append_lacks c s x t)

before_query_lacks :
    (url : Text) → has_byte b'?' url ≡ false → has_byte b'#' url ≡ false → before_query url ≡ url
before_query_lacks url no_query no_fragment =
    ap (before_byte b'?') (before_byte_lacks b'#' url no_fragment)
    ∙ before_byte_lacks b'?' url no_query

-- Under an accepted configuration the address that a query is posted to, for an endpoint whose own
-- address has no query and no fragment, has none either, and its path is the endpoint's with one
-- segment more, the profile: neither another plugin's metadata nor the configuration can lead a query
-- to another path.
pub split-url :
    (p : Parsers) (blocks : List Block) (c : Configured) (q : Asked) (wire : Text) (ep : Endpoint)
    (ci : ClientInfo)
    → parse_nextdns p blocks ≡ ok c
    → profile_for p.parse_addr c.handler.routes q ≢ passthrough
    → has_byte b'?' ep.base ≡ false
    → has_byte b'#' ep.base ≡ false
    → let profile = profile_for p.parse_addr c.handler.routes q in
      let url = (new_request ep profile wire ci).url in
      (before_query url ≡ url)
      × (split b'/' (before_query url) ≡ split b'/' (before_query ep.base) ++ profile ∷ [])
unfolding new_request
split-url p blocks c q wire ep ci e not_on no_query no_fragment =
    let profile = profile_for p.parse_addr c.handler.routes q in
    let plain = IsRoute-alnum profile (profile_for-parse_nextdns p blocks c q e) not_on in
    let url = ep.base ++ b'/' ∷ profile in
    let whole =
      before_query_lacks url
        (has_byte-append_lacks b'?' ep.base b'/' profile no_query refl
          (lacks_byte b'?' profile (unfold is_alnum in refl) plain))
        (has_byte-append_lacks b'#' ep.base b'/' profile no_fragment refl
          (lacks_byte b'#' profile (unfold is_alnum in refl) plain)) in
    (
      whole,
      ap (split b'/') whole
          ∙ split-last b'/' ep.base profile
              (lacks_byte b'/' profile (unfold is_alnum in refl) plain)
          ∙ ap (λ t. split b'/' t ++ profile ∷ [])
              (sym (before_query_lacks ep.base no_query no_fragment)),
    )
