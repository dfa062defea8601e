-- ===== src/Doh/Request.antt =====
-- doh.go: the HTTP request that an attempt makes, with setHeaders of device.go, and the start of
-- exchange. How a query is packed is a parameter.
use coredns_nextdns.Prelude.{
  ◌∙◌, ◌≡◌, refl, List, [], ◌∷◌, ◌++◌, false, Option, none, some, arith, if◌then◌else◌,
}
use coredns_nextdns.Prelude.Text.{Text, codes, is_empty, text_discrete}
use coredns_nextdns.Prelude.Dict
use coredns_nextdns.Prelude.Dict.{Dict}
use coredns_nextdns.Device.{ClientInfo}
use coredns_nextdns.Dns.{Msg}
use coredns_nextdns.Doh.{text_eq, Endpoint, Attempt, DohClient, exchange}

-- What the program sets of an *http.Request whose method is POST.
pub record HttpRequest : Type 0 where
  pub url : Text
  pub headers : Dict Text Text
  pub body : Text

abbrev pub dns_message_mime : Text
dns_message_mime = codes "application/dns-message"

unfoldable pub set_header : Text → Text → Dict Text Text → Dict Text Text
set_header key value h = Dict.put text_discrete key value h

-- if v != "" { h.Set(key, v) }
unfoldable pub set_known : Text → Text → Dict Text Text → Dict Text Text
set_known key value h = if is_empty value then h else set_header key value h

-- setHeaders
unfoldable pub set_headers : ClientInfo → Dict Text Text → Dict Text Text
set_headers ci h = set_known (codes "X-Device-Name") ci.name (
    set_known (codes "X-Device-Model") ci.model
      (set_known (codes "X-Device-Ip") ci.ip (set_known (codes "X-Device-Id") ci.id h)))

-- newDOHClient: userAgent, with the version
abbrev pub user_agent : Text
user_agent = codes "coredns-nextdns/0.1.0"

-- The headers that every request has.
unfoldable pub common_headers : Dict Text Text
common_headers = set_header (codes "X-Conf-Last-Modified") (codes "true") (
    set_header (codes "User-Agent") user_agent (
      set_header (codes "Accept") dns_message_mime
        (set_header (codes "Content-Type") dns_message_mime [])))

-- The request of do.
unfoldable pub new_request : Endpoint → Text → Text → ClientInfo → HttpRequest
new_request ep profile wire ci = record {
  url = ep.base ++ b'/' ∷ profile;
  headers = set_headers ci common_headers;
  body = wire;
}

-- exchange: the query goes out with the ID 0, to the endpoints in turn; a query that cannot be
-- packed is an error at once.
unfoldable pub exchange_query :
    (Msg → Option Text)
    → (Endpoint → HttpRequest → Attempt)
    → Text
    → ClientInfo
    → Msg
    → DohClient
    → Option Msg × DohClient × List Text
exchange_query pack network profile ci r c = elim (pack (record r { id = 0 })) [
  | none ↦ (none, c, [])
  | some wire ↦ exchange profile (λ ep. network ep (new_request ep profile wire ci)) c
]

-- What is sent under the name of a header.
unfoldable pub header_of : Text → HttpRequest → Option Text
header_of key r = Dict.get text_discrete key r.headers

abbrev pub if_known : Text → Option Text
if_known v = if is_empty v then none else some v

skip_known :
    (key j v : Text) (h : Dict Text Text)
    → text_eq key j ≡ false
    → Dict.get text_discrete j (set_known key v h) ≡ Dict.get text_discrete j h
unfolding set_known set_header
skip_known key j v h other = ground (arith, other, Dict.get-put text_discrete key j v h)

get-set_known :
    (key v : Text) (h : Dict Text Text)
    → Dict.get text_discrete key h ≡ none
    → Dict.get text_discrete key (set_known key v h) ≡ if_known v
unfolding set_known set_header
get-set_known key v h free = ground (arith, free, Dict.get-put text_discrete key key v h)

-- A request tells NextDNS of a device exactly what is known: each device header is there if and
-- only if its field is not empty, with the field's value, and no device header hides one of the
-- others.
pub header_of-new_request :
    (ep : Endpoint) (profile wire : Text) (ci : ClientInfo)
    → let r = new_request ep profile wire ci in
      (header_of (codes "X-Device-Id") r ≡ if_known ci.id)
      × (header_of (codes "X-Device-Ip") r ≡ if_known ci.ip)
      × (header_of (codes "X-Device-Model") r ≡ if_known ci.model)
      × (header_of (codes "X-Device-Name") r ≡ if_known ci.name)
      × (header_of (codes "Content-Type") r ≡ some dns_message_mime)
      × (header_of (codes "X-Conf-Last-Modified") r ≡ some (codes "true"))
unfolding header_of new_request set_headers common_headers Dict.get Dict.put text_discrete
    set_header
header_of-new_request ep profile wire ci =
    let h = common_headers in
    let id = codes "X-Device-Id" in
    let ip = codes "X-Device-Ip" in
    let model = codes "X-Device-Model" in
    let name = codes "X-Device-Name" in
    let hid = set_known id ci.id h in
    let hip = set_known ip ci.ip hid in
    let hmodel = set_known model ci.model hip in
    let past : (j : Text)
        → text_eq id j ≡ false
        → text_eq ip j ≡ false
        → text_eq model j ≡ false
        → text_eq name j ≡ false
        → Dict.get text_discrete j (set_known name ci.name hmodel) ≡ Dict.get text_discrete j h =
      λ j a b c d.
        skip_known name j ci.name hmodel d
        ∙ skip_known model j ci.model hip c
        ∙ skip_known ip j ci.ip hid b
        ∙ skip_known id j ci.id h a in
    let ip_free = skip_known id ip ci.id h refl in
    let model_free = skip_known ip model ci.ip hid refl ∙ skip_known id model ci.id h refl in
    let name_free =
      skip_known model name ci.model hip refl
      ∙ skip_known ip name ci.ip hid refl
      ∙ skip_known id name ci.id h refl in
    (
      skip_known name id ci.name hmodel refl
          ∙ skip_known model id ci.model hip refl
          ∙ skip_known ip id ci.ip hid refl
          ∙ get-set_known id ci.id h refl,
      skip_known name ip ci.name hmodel refl
          ∙ skip_known model ip ci.model hip refl
          ∙ get-set_known ip ci.ip hid ip_free,
      skip_known name model ci.name hmodel refl ∙ get-set_known model ci.model hip model_free,
      get-set_known name ci.name hmodel name_free,
      past (codes "Content-Type") refl refl refl refl,
      past (codes "X-Conf-Last-Modified") refl refl refl refl,
    )
