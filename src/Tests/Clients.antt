-- ===== src/Tests/Clients.antt =====
-- Runs of the set-up of the DNS-over-HTTPS client and of its requests.
use coredns_nextdns.Prelude.{
  ◌≡◌, refl, List, [], ◌∷◌, Bool, true, false, Option, some, All, ℕ_discrete,
}
use coredns_nextdns.Prelude.Text.{Text, codes, text_discrete}
use coredns_nextdns.Prelude.Fields.{
  split, join, has_byte, before_byte, after_byte, trim_space, trim_suffix,
}
use coredns_nextdns.Prelude.Int.{pos}
use coredns_nextdns.Prelude.Result.{ok}
use coredns_nextdns.Prelude.Dict
use coredns_nextdns.Device.{ClientInfo}
use coredns_nextdns.Doh.{Endpoint, DohClient}
use coredns_nextdns.Doh.Setup.{
  Url, DohOptions, HttpSettings, apply_bootstrap, with_bootstrap, parse_addresses, parse_bootstrap,
  parse_spec, parse_endpoint, build_endpoints, fill_bootstrap, new_doh_client, well_known,
}
use coredns_nextdns.Doh.Shared.{IsAddress, LacksAddresses}

abbrev always : Text → Bool
always t = true

abbrev parse_url : Text → Option Url
parse_url t =
    some (record { scheme = codes "https"; host = codes "far"; hostname = codes "far"; text = t })

abbrev specs : List Text
specs = codes "https://far" ∷ []

abbrev far : Endpoint
far = record {
  base = codes "https://far";
  host = codes "far";
  bootstrap = codes "9.9.9.9" ∷ [];
  next = 0;
}

program : Unit {0}
unfolding apply_bootstrap with_bootstrap parse_addresses parse_bootstrap parse_spec parse_endpoint
    build_endpoints fill_bootstrap new_doh_client well_known split join has_byte before_byte
    after_byte trim_space trim_suffix Dict.get text_discrete ℕ_discrete
program = tt

built : build_endpoints always parse_url (codes "https://far/#9.9.9.9, ," ∷ []) ≡ ok (far ∷ [])
unfolding program
built = refl

abbrev options : DohOptions
options = record {
  endpoints = codes "https://far#9.9.9.9" ∷ [];
  timeout = pos 0;
  tls_server_name = [];
  max_idle_conns = 0;
}

abbrev client : DohClient
client = record { endpoints = far ∷ []; last_mod = []; boot_failing = [] }

abbrev http : HttpSettings
http = record {
  timeout = 5_000_000_000;
  server_name = [];
  max_idle_conns = 16;
  follows_redirects = false;
}

address : All (IsAddress always parse_url) (codes "9.9.9.9" ∷ [])
unfolding program
address = ((refl, refl, refl, refl), tt)

lacks : All (LacksAddresses always parse_url) specs
unfolding program
lacks = (refl, tt)

applied : options.endpoints ≡ apply_bootstrap specs (codes "9.9.9.9" ∷ [])
unfolding program
applied = refl

made : new_doh_client always parse_url options ≡ ok (client, http)
unfolding program
made = refl

-- Not even if no address can be reached.
abbrev never : Text → Bool
never t = false

abbrev laptop : ClientInfo
laptop = record { id = codes "A1B2C"; ip = []; name = codes "laptop"; model = [] }
