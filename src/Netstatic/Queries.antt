-- ===== src/Netstatic/Queries.antt =====
-- `GetTotalTraffic`, `GetTotalTrafficBetween`, `GetNetStatic` and `GetNetStaticBetween` of
-- monitoring/netstatic/static.go. `ensureInitLocked`, which they call first, changes nothing that
-- a total reads.
use komari_agent.Shared.{
  ℕ, ◌+◌, ◌%◌, Bool, ◌||◌, ◌&&◌, List, [], ◌∷◌, String, ◌==◌, ltb, leb, if◌then◌else◌, from_option,
  lookup, insert, Dict, keep,
}
use komari_agent.Netstatic.Model.{
  TrafficData, NetStatic, State, word, config_or_default, ensure_init, is_empty, append_to,
}
use komari_agent.Netstatic.Counters.{sum_tx, sum_rx}

abbrev pub no_traffic : TrafficData
no_traffic = record { timestamp = 0; tx = 0; rx = 0 }

-- `res[name]` of a map of totals.
abbrev pub total_at : String → Dict TrafficData → TrafficData
total_at name res = from_option no_traffic (lookup name res)

-- The closure `add`.
unfoldable pub add : String → ℕ → ℕ → Dict TrafficData → Dict TrafficData
add name tx rx res =
    let cur = total_at name res in
    insert name (record cur { tx = (cur.tx + tx) % word; rx = (cur.rx + rx) % word }) res

unfoldable pub add_totals : Dict (List TrafficData) → Dict TrafficData → Dict TrafficData
add_totals [] res = res
add_totals ((name, arr) ∷ m) res = add_totals m (add name (sum_tx 0 arr) (sum_rx 0 arr) res)

unfoldable pub get_total_traffic : State → Dict TrafficData
get_total_traffic s = add_totals s.static_cache (add_totals s.store.interfaces [])

-- The closure `inRange`: 0 is no bound.
unfoldable pub in_range : ℕ → ℕ → ℕ → Bool
in_range start end ts = (start == 0 || leb start ts) && (end == 0 || leb ts end)

abbrev pub within : ℕ → ℕ → List TrafficData → List TrafficData
within start end arr = keep (λ td. in_range start end td.timestamp) arr

unfoldable pub add_between : ℕ → ℕ → Dict (List TrafficData) → Dict TrafficData → Dict TrafficData
add_between start end [] res = res
add_between start end ((name, arr) ∷ m) res =
    let tx = sum_tx 0 (within start end arr) in
    let rx = sum_rx 0 (within start end arr) in
    add_between start end m (if ltb 0 tx || ltb 0 rx then add name tx rx res else res)

unfoldable pub get_total_traffic_between : ℕ → ℕ → State → Dict TrafficData
get_total_traffic_between start end s =
    add_between start end s.static_cache (add_between start end s.store.interfaces [])

-- The entries of the cache join those of the store, uncombined.
unfoldable pub append_all :
    Dict (List TrafficData) → Dict (List TrafficData) → Dict (List TrafficData)
append_all [] m = m
append_all ((name, arr) ∷ cache) m = append_all cache (append_to name arr m)

unfoldable pub get_net_static : State → NetStatic
get_net_static s =
    let s' = ensure_init s in
    record {
      interfaces = append_all s'.static_cache s'.store.interfaces;
      config = config_or_default s'.config;
    }

unfoldable pub filter_all : ℕ → ℕ → Dict (List TrafficData) → Dict (List TrafficData)
filter_all start end [] = []
filter_all start end ((name, arr) ∷ m) =
    let filtered = within start end arr in
    if is_empty filtered then filter_all start end m else (name, filtered) ∷ filter_all start end m

unfoldable pub get_net_static_between : ℕ → ℕ → State → NetStatic
get_net_static_between start end s =
    let s' = ensure_init s in
    record {
      interfaces =
          append_all (filter_all start end s'.static_cache)
            (filter_all start end s'.store.interfaces);
      config = config_or_default s'.config;
    }
