-- ===== src/Dns/Rcode.antt =====
-- The response codes of miekg/dns that the plugin names: RcodeSuccess, RcodeFormatError, RcodeServerFailure, RcodeNameError, RcodeRefused.
use coredns_nextdns.Prelude.{ℕ}

abbrev pub success : ℕ
success = 0

abbrev pub format_error : ℕ
format_error = 1

abbrev pub server_failure : ℕ
server_failure = 2

abbrev pub name_error : ℕ
name_error = 3

abbrev pub refused : ℕ
refused = 5
