-- ===== src/Uploads/Lifecycle.antt =====
-- The streams of uploads that are active, and the tombstones of cancelled uploads: `beginUploadStream`
-- with the function that it returns, `waitUploadStreams`, `cancelUploadStreams` and
-- `pruneUploadLifecyclesLocked` (files/stream.go). Times are nanoseconds, 0 the zero time. A stream's
-- cancel function is its name.
use komari_agent.Shared.{
  ℕ, ◌+◌, ◌-◌, Bool, true, false, not, ◌&&◌, ◌||◌, none, some, List, [], ◌∷◌, String, str_eq, ◌==◌,
  leb, if◌then◌else◌, from_option,
}
use komari_agent.Shared.Maps.{Dict, lookup, insert, erase}

pub record Lifecycle : Type 0 where
  pub active : ℕ
  pub canceled : Bool
  pub canceled_at : ℕ
  pub streams : List String

abbrev pub idle : Lifecycle
idle = record { active = 0; canceled = false; canceled_at = 0; streams = [] }

-- Fifteen minutes.
abbrev pub tombstone_ttl : ℕ
tombstone_ttl = 900000000000

unfoldable pub is_expired : ℕ → Lifecycle → Bool
is_expired now s =
    s.canceled && s.active == 0 && (s.canceled_at == 0 || leb tombstone_ttl (now - s.canceled_at))

unfoldable pub prune : ℕ → Dict Lifecycle → Dict Lifecycle
prune now [] = []
prune now ((id, s) ∷ m) = if is_expired now s then prune now m else (id, s) ∷ prune now m

abbrev pub state_of : String → Dict Lifecycle → Lifecycle
state_of id m = from_option idle (lookup id m)

abbrev pub drop_stream : String → List String → List String
drop_stream x [] = []
drop_stream x (y ∷ ys) = if str_eq y x then drop_stream x ys else y ∷ drop_stream x ys

-- No stream of a cancelled upload begins; the answer says whether it did.
unfoldable pub begin_stream : String → String → ℕ → Dict Lifecycle → Bool × Dict Lifecycle
begin_stream id stream now m =
    if str_eq id ""
    then (true, m)
    else (let pruned = prune now m in
        let s = state_of id pruned in
        if s.canceled then (false, insert id s pruned) else (
          true,
          insert id
              (record s {
                active = s.active + 1;
                streams =
                    if str_eq stream "" then s.streams else stream ∷ drop_stream stream s.streams;
              })
              pruned,
        ))

unfoldable pub end_stream : String → String → Dict Lifecycle → Dict Lifecycle
end_stream id stream m = elim (lookup id m) [
  | none ↦ m
  | some s ↦
      let streams = if str_eq stream "" then s.streams else drop_stream stream s.streams in
      if s.active == 0
      then insert id (record s { streams = streams }) m
      else if s.active == 1 && not s.canceled
      then erase id m
      else insert id (record s { streams = streams; active = s.active - 1 }) m
]

-- What the wait does once no stream is active; until then it blocks.
unfoldable pub wait_idle : String → Dict Lifecycle → Dict Lifecycle
wait_idle id m = elim (lookup id m) [
  | none ↦ m
  | some s ↦ if s.active == 0 && not s.canceled then erase id m else m
]

-- The streams that are to be cancelled, and the tombstone.
unfoldable pub cancel_streams : String → ℕ → Dict Lifecycle → List String × Dict Lifecycle
cancel_streams id now m =
    if str_eq id ""
    then ([], m)
    else (let pruned = prune now m in
        let s = state_of id pruned in
        (s.streams, insert id (record s { canceled = true; canceled_at = now }) pruned))
