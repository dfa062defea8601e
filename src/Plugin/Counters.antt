-- ===== src/Plugin/Counters.antt =====
-- metrics.go: the counters and the histogram that the handler writes while it serves a query, as
-- the calls of WithLabelValues; the label of the server is the same for all of a query's.
use coredns_nextdns.Prelude.{ℕ, List, [], ◌∷◌, map}
use coredns_nextdns.Prelude.Text.{Text}
use coredns_nextdns.Cache.{Found, hit, absent, collided}

pub data Counter : Type 0 where
  cache_hits cache_misses cache_collisions max_concurrent_rejects mismatches : Counter
  request_duration : Text → Counter
  responses : Text → ℕ → Counter
  errors : Text → Counter

-- What the handler and the cache count of a lookup in the cache.
unfoldable pub count_found : Found → List Counter
count_found (hit m) = cache_hits ∷ []
count_found absent = cache_misses ∷ []
count_found collided = cache_collisions ∷ cache_misses ∷ []

-- What an exchange counts: the host of each endpoint that failed.
unfoldable pub count_errors : List Text → List Counter
count_errors hosts = map errors hosts
