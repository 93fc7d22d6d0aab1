-- ===== src/Netstatic/History.antt =====
-- What a restart keeps of the traffic, and how it is lost (monitoring/netstatic/static.go).
use komari_agent.Shared.{ℕ, ◌≡◌, refl, true, false, ◌||◌, some, [], arith}
use komari_agent.Netstatic.Model.{
  NetStatic, FileContent, stored, State, config_or_default, ensure_init,
}
use komari_agent.Netstatic.Counters.{purge_expired}
use komari_agent.Netstatic.Files.{
  Faults, load_from_file, save_to_file, start_or_continue, NewConfig, merge_config, set_new_config,
}

-- When the first start fails because the file does not open or does not read, and a new
-- configuration is then set with no failing call, the file holds no interface any more, whatever it
-- held.
pub set_new_config_erases :
    (f g : Faults) (now later : ℕ) (n : NewConfig) (s : State) (content : FileContent)
    → s.running ≡ false
    → s.store.interfaces ≡ []
    → s.file ≡ some content
    → (f.open_file || f.read) ≡ true
    → (g.make_directory || g.write || g.rename) ≡ false
    → (ns : NetStatic) × ((set_new_config g later n (start_or_continue f now s).1).file
        ≡ some (stored ns))
      × (ns.interfaces ≡ [])
unfolding set_new_config start_or_continue load_from_file save_to_file purge_expired ensure_init
set_new_config_erases f g now later n s content run h file bad fine = (
  record { interfaces = []; config = config_or_default (merge_config n s.store.config) },
  ground arith,
  refl,
)
