-- ===== src/Netstatic/Files.antt =====
-- The state on disk and the lifecycle of monitoring/netstatic/static.go: `loadFromFileLocked`,
-- `saveToFileLocked`, `StartOrContinue`, `Stop`, `Clear`, `SetNewConfig` and `ForceReplaceRecord`.
-- The tickers and goroutines are the environment: they call the operations of `Counters`.
use komari_agent.Shared.{
  ℕ, Bool, true, false, ◌||◌, List, [], ◌∷◌, String, str_eq, if◌then◌else◌, Option, none, some,
  Dict, any,
}
use komari_agent.Shared.Results.{Result, ok, err}
use komari_agent.Netstatic.Model.{
  TrafficData, NetStaticConfig, stored, empty, malformed, State, or_default, config_or_default,
  ensure_init, is_empty, unix,
}
use komari_agent.Netstatic.Counters.{flush_cache, purge_expired}

pub data StaticError : Type 0 where
  open_failed read_failed save_failed : StaticError

-- Which calls on the file fail.
pub record Faults : Type 0 where
  pub open_file : Bool
  pub read : Bool
  pub rename_bad : Bool
  pub make_directory : Bool
  pub write : Bool
  pub rename : Bool

abbrev pub Outcome : Type 0
Outcome = Result StaticError (Unit {0}) × State

abbrev pub with_default_config : State → State
with_default_config s =
    let s' = ensure_init s in
    record s' { store = record s'.store { config = config_or_default s'.config } }

-- `loadFromFileLocked`. A file that is no JSON is moved away, if that succeeds.
unfoldable pub load_from_file : Faults → ℕ → State → Outcome
load_from_file f now s = elim s.file [
  | none ↦ if f.open_file then (err open_failed, s) else (ok tt, with_default_config s)
  | some content ↦
      if f.open_file
      then (err open_failed, s)
      else if f.read
      then (err read_failed, s)
      else elim content [
        | empty ↦ (ok tt, with_default_config s)
        | malformed ↦
            (ok tt, with_default_config (if f.rename_bad then s else record s { file = none }))
        | stored ns ↦ (
          ok tt,
          purge_expired now
              (ensure_init (record s { store = ns; config = config_or_default ns.config })),
        )
      ]
]

-- `saveToFileLocked`: the state goes to a temporary file, which then replaces the file.
unfoldable pub save_to_file : Faults → State → Outcome
save_to_file f s =
    if f.make_directory
    then (err save_failed, s)
    else (let s' : State = record s {
      store = record s.store { config = config_or_default s.config };
    } in
        if f.write || f.rename
        then (err save_failed, s')
        else (ok tt, record s' { file = some (stored s'.store) }))

unfoldable pub start_or_continue : Faults → ℕ → State → Outcome
start_or_continue f now s =
    if s.running
    then (ok tt, s)
    else (let (r, s') = load_from_file f now (ensure_init s) in
        elim r [ err e ↦ (err e, s') | ok _ ↦ (ok tt, record s' { running = true }) ])

unfoldable pub clear : State → State
clear s =
    let s' = ensure_init s in
    record s' { store = record s'.store { interfaces = [] }; static_cache = []; last_counters = [] }

-- What the save ticker does.
unfoldable pub save_tick : Faults → ℕ → State → State
save_tick f now s = (save_to_file f (purge_expired now (flush_cache (unix now) s))).1

unfoldable pub stop : Faults → ℕ → State → Outcome
stop f now s =
    if s.running
    then save_to_file f (purge_expired now (flush_cache (unix now) (record s { running = false })))
    else (ok tt, s)

-- A new configuration, where 0 and a missing list leave what is there.
pub record NewConfig : Type 0 where
  pub data_preserve : ℕ
  pub detect_interval : ℕ
  pub save_interval : ℕ
  pub nics : Option (List String)

unfoldable pub merge_config : NewConfig → NetStaticConfig → NetStaticConfig
merge_config n c = config_or_default (record {
  data_preserve = or_default c.data_preserve n.data_preserve;
  detect_interval = or_default c.detect_interval n.detect_interval;
  save_interval = or_default c.save_interval n.save_interval;
  nics = elim n.nics [ none ↦ c.nics | some nics ↦ nics ];
})

-- The entries of the interfaces that are named.
abbrev pub restrict_to : {V : Type 0} → List String → Dict V → Dict V
restrict_to nics [] = []
restrict_to nics ((name, v) ∷ m) =
    if any (λ n. str_eq n name) nics then (name, v) ∷ restrict_to nics m else restrict_to nics m

unfoldable pub forget_others : NetStaticConfig → State → State
forget_others c s = if is_empty c.nics then s else record s {
  last_counters = restrict_to c.nics s.last_counters;
  static_cache = restrict_to c.nics s.static_cache;
}

-- `SetNewConfig`; it ignores a failure to save.
unfoldable pub set_new_config : Faults → ℕ → NewConfig → State → State
set_new_config f now n s =
    let s1 = ensure_init s in
    let cfg = merge_config n s1.store.config in
    let s2 : State = record s1 { store = record s1.store { config = cfg }; config = cfg } in
    let s3 = if s2.running then forget_others cfg s2 else s2 in
    purge_expired now (save_to_file f s3).1

unfoldable pub force_replace_record : ℕ → Dict (List TrafficData) → State → State
force_replace_record now rec s =
    let s' = ensure_init s in
    purge_expired now (record s' { store = record s'.store { interfaces = rec } })
