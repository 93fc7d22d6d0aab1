-- ===== src/Netstatic/Tests.antt =====
-- The theorems on the traffic counters at concrete data.
use komari_agent.Shared.{ℕ, ◌≡◌, ◌≤◌, ◌+◌, ◌%◌, refl, true, false, none, some, List, [], ◌∷◌, arith}
use komari_agent.Netstatic.Model.{NetStaticConfig, NetStatic, stored, State, word, is_nic_allowed}
use komari_agent.Netstatic.Counters.{cutoff_of, flush_cache, purge_expired}
use komari_agent.Netstatic.Files.{Faults, start_or_continue, NewConfig, set_new_config}
use komari_agent.Netstatic.Sums.{sending, named}
use komari_agent.Netstatic.Conservation.{total, flush_cache-total}
use komari_agent.Netstatic.Sampling.{Event, sample, flush, observe, observe-total}
use komari_agent.Netstatic.Reports.{total_between, between_split}
use komari_agent.Netstatic.Expiry.{purge_expired-wraps}
use komari_agent.Netstatic.History.{set_new_config_erases}

abbrev settings : NetStaticConfig
settings = record {
  data_preserve = 86400000000000;
  detect_interval = 2000000000;
  save_interval = 600000000000;
  nics = "eth0" ∷ [];
}

abbrev busy : State
busy = record {
  store = record {
    interfaces = ("eth0", record { timestamp = 100; tx = 10; rx = 20 } ∷ []) ∷ [];
    config = settings;
  };
  static_cache = ("eth0", record { timestamp = 200; tx = 5; rx = 6 } ∷ []) ∷ [];
  config = settings;
  last_counters = ("eth0", record { sent = 1000; received = 2000 }) ∷ [];
  running = true;
  file = none;
}

-- 1970-01-02, in nanoseconds.
abbrev today : ℕ
today = 90000000000000

abbrev no_faults : Faults
no_faults = record {
  open_file = false;
  read = false;
  rename_bad = false;
  make_directory = false;
  write = false;
  rename = false;
}

abbrev events : List Event
events =
    sample 300 (record { name = "eth0"; bytes_sent = 1500; bytes_received = 2600 } ∷ [])
    ∷ flush 400
    ∷ sample 500 (record { name = "eth0"; bytes_sent = 1700; bytes_received = 2600 } ∷ [])
    ∷ []

flush_cache-total_example : total sending "eth0" (flush_cache 400 busy) ≡ total sending "eth0" busy
flush_cache-total_example = flush_cache-total sending "eth0" 400 busy

monitored : is_nic_allowed settings "eth0" ≡ true
unfolding is_nic_allowed
monitored = refl

observe-total_example :
    (total sending "eth0" (observe events busy) + 1000) % word
    ≡ (total sending "eth0" busy + 1700) % word
observe-total_example =
    observe-total sending "eth0" events (record { sent = 1000; received = 2000 }) busy monitored
      refl refl

between_split_example :
    total_between sending "eth0" 50 300 busy
    ≡ (total_between sending "eth0" 50 150 busy + total_between sending "eth0" 151 300 busy) % word
between_split_example =
    between_split sending "eth0" 50 150 300 busy (omega arith) (omega arith) (omega arith)

later_cutoff : cutoff_of 86500000000000 86400000000000 ≤ cutoff_of today 86400000000000
unfolding cutoff_of
later_cutoff = omega arith

purge_expired-wraps_example : named "eth0" (purge_expired 80000000000000 busy).store.interfaces ≡ []
purge_expired-wraps_example =
    purge_expired-wraps "eth0" 80000000000000 busy (omega arith) (omega arith) refl

abbrev first_start : State
first_start = record {
  store = record { interfaces = []; config = settings };
  static_cache = [];
  config = settings;
  last_counters = [];
  running = false;
  file = some (stored busy.store);
}

abbrev watched : NewConfig
watched = record {
  data_preserve = 0;
  detect_interval = 0;
  save_interval = 0;
  nics = some ("eth0" ∷ []);
}

set_new_config_erases_example :
    (ns : NetStatic) × ((set_new_config no_faults today watched
        (start_or_continue (record no_faults { open_file = true }) today first_start).1).file
      ≡ some (stored ns))
    × (ns.interfaces ≡ [])
set_new_config_erases_example =
    set_new_config_erases (record no_faults { open_file = true }) no_faults today today watched
      first_start (stored busy.store) refl refl refl refl refl
