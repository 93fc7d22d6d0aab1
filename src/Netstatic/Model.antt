-- ===== src/Netstatic/Model.antt =====
-- The data of monitoring/netstatic/static.go. The intervals of the configuration, floating-point
-- days and seconds there, are the nanoseconds that they convert to; a `nil` map is an empty one.
-- The clock is a number of nanoseconds.
use komari_agent.Shared.{
  ℕ, ◌/◌, Bool, true, false, ◌||◌, List, [], ◌∷◌, ◌++◌, String, str_eq, ◌==◌, if◌then◌else◌, Option,
  from_option, any, lookup, insert, Dict,
}

pub record TrafficData : Type 0 where
  pub timestamp : ℕ
  pub tx : ℕ
  pub rx : ℕ

-- The retention (the source's fractional days) and the intervals in whole nanoseconds; negative values
-- are left out.
pub record NetStaticConfig : Type 0 where
  pub data_preserve : ℕ
  pub detect_interval : ℕ
  pub save_interval : ℕ
  pub nics : List String

pub record NetStatic : Type 0 where
  pub interfaces : Dict (List TrafficData)
  pub config : NetStaticConfig

-- The cumulative counters that the system reports.
pub record Counter : Type 0 where
  pub sent : ℕ
  pub received : ℕ

pub data FileContent : Type 0 where
  stored : NetStatic → FileContent
  empty malformed : FileContent

pub record State : Type 0 where
  pub store : NetStatic
  pub static_cache : Dict (List TrafficData)
  pub config : NetStaticConfig
  pub last_counters : Dict Counter
  pub running : Bool
  pub file : Option FileContent

abbrev pub word : ℕ
word = 18446744073709551616

-- 31 days.
abbrev pub default_data_preserve : ℕ
default_data_preserve = 2678400000000000

abbrev pub default_detect_interval : ℕ
default_detect_interval = 2000000000

abbrev pub default_save_interval : ℕ
default_save_interval = 600000000000

abbrev pub or_default : ℕ → ℕ → ℕ
or_default default n = if n == 0 then default else n

unfoldable pub config_or_default : NetStaticConfig → NetStaticConfig
config_or_default c = record c {
  data_preserve = or_default default_data_preserve c.data_preserve;
  detect_interval = or_default default_detect_interval c.detect_interval;
  save_interval = or_default default_save_interval c.save_interval;
}

unfoldable pub ensure_init : State → State
ensure_init s = record s { config = config_or_default s.config }

abbrev pub is_empty {ℓ} : {A : Type ℓ} → List A → Bool
is_empty [] = true
is_empty (_ ∷ _) = false

unfoldable pub is_nic_allowed : NetStaticConfig → String → Bool
is_nic_allowed c name = is_empty c.nics || any (λ n. str_eq n name) c.nics

-- `time.Now().Unix()`
abbrev pub unix : ℕ → ℕ
unix now = now / 1000000000

-- `m[name]` for a map of slices.
abbrev pub entries : String → Dict (List TrafficData) → List TrafficData
entries name m = from_option [] (lookup name m)

-- `m[name] = append(m[name], values...)`
abbrev pub append_to : String → List TrafficData → Dict (List TrafficData) → Dict (List TrafficData)
append_to name values m = insert name (entries name m ++ values) m
