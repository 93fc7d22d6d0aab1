-- ===== src/Credentials/Calls.antt =====
-- What may happen to the identity file of an installation, as data: every operation of the store and
-- the restarts of the agent, which opens the file again.
use komari_agent.Shared.{ℕ, List, [], ◌∷◌, String}
use komari_agent.Shared.Results.{ok, err}
use komari_agent.Credentials.Model.{Identity}
use komari_agent.Credentials.Store.{
  World, Faults, Done, Issue, Trust, open_store, save, update_credentials, pin_trust_bundle, clear,
  begin_refresh, commit_refresh,
}

pub data Call : Type 0 where
  enroll : ℕ → Identity → Call
  update : ℕ → Issue → Call
  pin : ℕ → Trust → Call
  log_out : Call
  begin : ℕ → String → Call
  commit : ℕ → Identity → Identity → Call
  restart : Call

-- An agent that does not start leaves its store unused.
unfoldable pub restarted : Faults → World → Done × World
restarted f w = elim (open_store f w.file) [
  | err e ↦ (err e, w)
  | ok i ↦ (ok tt, record w { identity = i })
]

unfoldable pub begun : Faults → ℕ → String → World → Done × World
begun f now new_id w =
    let (r, w') = begin_refresh f now new_id w in
    elim r [ err e ↦ (err e, w') | ok _ ↦ (ok tt, w') ]

unfoldable pub perform : Faults → Call → World → Done × World
perform f (enroll now i) w = save f now i w
perform f (update now c) w = update_credentials f now c w
perform f (pin now t) w = pin_trust_bundle f now t w
perform f log_out w = clear f w
perform f (begin now new_id) w = begun f now new_id w
perform f (commit now before after) w = commit_refresh f now before after w
perform f restart w = restarted f w

unfoldable pub run : List (Faults × Call) → World → World
run [] w = w
run ((f, c) ∷ calls) w = run calls (perform f c w).1
