-- ===== src/Netstatic/Counters.antt =====
-- `safeDelta`, `sampleOnceLocked`, `flushCacheLocked` and `purgeExpiredLocked` of
-- monitoring/netstatic/static.go, with the wrap-around of `uint64`.
use komari_agent.Shared.{
  ℕ, ◌+◌, ◌-◌, ◌%◌, ◌/◌, ◌||◌, List, [], ◌∷◌, String, ltb, leb, if◌then◌else◌, Option, none, some,
  lookup, insert, Dict, keep,
}
use komari_agent.Netstatic.Model.{
  TrafficData, Counter, State, word, is_empty, is_nic_allowed, unix, append_to,
}

-- A counter that went back, by a wrap-around or a reset, adds nothing.
unfoldable pub safe_delta : ℕ → ℕ → ℕ
safe_delta cur prev = if leb prev cur then cur - prev else 0

-- `gnet.IOCountersStat`, as far as it is read.
pub record Reading : Type 0 where
  pub name : String
  pub bytes_sent : ℕ
  pub bytes_received : ℕ

-- What one reading adds to the cache; the first reading of an interface adds nothing.
unfoldable pub recorded : ℕ → Reading → Option Counter → List TrafficData
recorded ts io none = []
recorded ts io (some prev) =
    let dtx = safe_delta io.bytes_sent prev.sent in
    let drx = safe_delta io.bytes_received prev.received in
    if ltb 0 dtx || ltb 0 drx then record { timestamp = ts; tx = dtx; rx = drx } ∷ [] else []

-- The body of the loop of `sampleOnceLocked`, for an interface that is monitored.
unfoldable pub count : ℕ → Reading → State → State
count ts io s = record s {
  static_cache = elim (recorded ts io (lookup io.name s.last_counters)) [
    | [] ↦ s.static_cache
    | td ∷ rest ↦ append_to io.name (td ∷ rest) s.static_cache
  ];
  last_counters =
      insert io.name (record { sent = io.bytes_sent; received = io.bytes_received })
        s.last_counters;
}

unfoldable pub sample_each : ℕ → List Reading → State → State
sample_each ts [] s = s
sample_each ts (io ∷ ios) s =
    sample_each ts ios (if is_nic_allowed s.config io.name then count ts io s else s)

-- `sampleOnceLocked`: what the system reports, or nothing when it fails to.
unfoldable pub sample_once : ℕ → Option (List Reading) → State → State
sample_once now none s = s
sample_once now (some ios) s = sample_each (unix now) ios s

unfoldable pub sum_tx : ℕ → List TrafficData → ℕ
sum_tx sum [] = sum
sum_tx sum (td ∷ tds) = sum_tx ((sum + td.tx) % word) tds

unfoldable pub sum_rx : ℕ → List TrafficData → ℕ
sum_rx sum [] = sum
sum_rx sum (td ∷ tds) = sum_rx ((sum + td.rx) % word) tds

-- The entries of one interface become one entry of the store.
unfoldable pub flush_into :
    ℕ → String → List TrafficData → Dict (List TrafficData) → Dict (List TrafficData)
flush_into ts name arr m =
    let tx = sum_tx 0 arr in
    let rx = sum_rx 0 arr in
    if ltb 0 tx || ltb 0 rx
    then append_to name (record { timestamp = ts; tx = tx; rx = rx } ∷ []) m
    else m

unfoldable pub flush_each :
    ℕ → Dict (List TrafficData) → Dict (List TrafficData) → Dict (List TrafficData)
flush_each ts [] m = m
flush_each ts ((name, arr) ∷ cache) m = flush_each ts cache (flush_into ts name arr m)

-- `flushCacheLocked`
unfoldable pub flush_cache : ℕ → State → State
flush_cache ts s = record s {
  store = record s.store { interfaces = flush_each ts s.static_cache s.store.interfaces };
  static_cache = [];
}

-- `uint64(time.Now().Add(-ttl).Unix())`: seconds before 1970 wrap around.
unfoldable pub cutoff_of : ℕ → ℕ → ℕ
cutoff_of now ttl =
    if leb ttl now then unix (now - ttl) else word - (ttl - now + 999999999) / 1000000000

unfoldable pub purge : ℕ → Dict (List TrafficData) → Dict (List TrafficData)
purge cutoff [] = []
purge cutoff ((name, arr) ∷ m) =
    let kept = keep (λ td. leb cutoff td.timestamp) arr in
    if is_empty kept then purge cutoff m else (name, kept) ∷ purge cutoff m

-- `purgeExpiredLocked`
unfoldable pub purge_expired : ℕ → State → State
purge_expired now s = record s {
  store = record s.store {
    interfaces = purge (cutoff_of now s.config.data_preserve) s.store.interfaces;
  };
}
