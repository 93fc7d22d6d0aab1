-- ===== src/Delivery/Receipts.antt =====
-- The outbox of receipts: the loop over the privileged store in `flushReceipts` of
-- clientcore/baseline.go. The receipts of the runtime configuration, which the function sends before,
-- stand in another store and are left out.
use komari_agent.Shared.{Bool, true, false, List, [], ◌∷◌, String, str_eq, ◌||◌, if◌then◌else◌}
use komari_agent.Shared.Results.{Result, ok, err}
use komari_agent.Signing.Verify.{VerifyError}
use komari_agent.Privileged.Model.{Receipt}
use komari_agent.Privileged.Approval.{Error}
use komari_agent.Privileged.Commit.{World, Call}
use komari_agent.Privileged.Operations.{finish_receipt}

pub data DeliveryError : Type 0 where
  no_identity not_v2 unencodable other_body other_agent bad_settings no_installation : DeliveryError
  baseline_mismatch stale_sequence unreachable approval_changed no_manifest no_policy :
      DeliveryError
  no_operation refused_remote_control exceeds_policy helper_not_ready undelivered : DeliveryError
  unverified : VerifyError → DeliveryError
  store_failed : Error → DeliveryError

abbrev pub Outcome : Type 0
Outcome = Result DeliveryError (Unit {0}) × World

-- What comes of sending a receipt: the panel takes it, it is refused for good (or describes a host that
-- was restored), or it may be sent again.
pub data Answer : Type 0 where
  taken : Answer
  refused : String → Answer
  postponed : Answer

-- The answers, and the surroundings of the write that finishes a receipt.
pub record Post : Type 0 where
  pub answer : Receipt → Answer
  pub call : Receipt → Call
  pub mark : String → String

-- A rejected receipt of the runtime configuration is only filed; other kinds than these are kept.
unfoldable pub answer_of : Post → Receipt → Answer
answer_of post r =
    if str_eq r.kind "runtime-rejected"
    then refused r.rejected
    else if str_eq r.kind "privileged" || str_eq r.kind "runtime"
    then post.answer r
    else postponed

-- The error that the loop remembers, unless it stops with one of the store.
abbrev pub remember : Outcome → Outcome
remember (ok _, w) = (err undelivered, w)
remember (err e, w) = (err e, w)

-- What a receipt is finished with: no reason where it was taken.
abbrev pub reason_of : Answer → String
reason_of (refused reason) = reason
reason_of _ = ""

abbrev pub is_postponed : Answer → Bool
is_postponed postponed = true
is_postponed _ = false

-- The write that finishes a receipt, before the loop goes on.
unfoldable pub finish : Post → Receipt → World → Outcome
finish post r w =
    let (result, w') =
      finish_receipt (post.call r) post.mark r.id (reason_of (answer_of post r)) w in
    elim result [ err e ↦ (err (store_failed e), w') | ok _ ↦ (ok tt, w') ]

unfoldable pub flush_each : Post → List Receipt → World → Outcome
flush_each post [] w = (ok tt, w)
flush_each post (r ∷ receipts) w =
    let (result, w') = finish post r w in
    let kept = flush_each post receipts w in
    let rest = flush_each post receipts w' in
    if is_postponed (answer_of post r)
    then remember kept
    else elim result [ err e ↦ (err e, w') | ok _ ↦ rest ]

-- The receipts that the outbox held at the start.
unfoldable pub flush : Post → World → Outcome
flush post w = flush_each post w.store.state.outbox w
