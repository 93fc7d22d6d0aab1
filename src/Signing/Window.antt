-- ===== src/Signing/Window.antt =====
-- The time between the expiry of an instruction and the end of the clock skew (core/signing): the
-- record has forgotten the nonce and the verifier still accepts the instruction.
use komari_agent.Shared.{
  ℕ, ◌+◌, ◌≤◌, ◌<◌, ◌≡◌, refl, Option, some, List, [], ◌∷◌, String, arith, length,
}
use komari_agent.Shared.Results.{ok}
use komari_agent.Signing.Replay.{ReplayGuard, GuardFaults, load, persist, consume}
use komari_agent.Signing.Verify.{
  Crypto, Verifier, Signature, Instruction, Verified, Envelope, Tally, vouches, tally_one, tally,
  empty_tally, verify_signatures, check_binding, check_envelope, consume_nonce, verify,
}
use komari_agent.Signing.Acceptance.{check_envelope-eq_ok, verify-eq_ok}
use komari_agent.Signing.Replays.{nonce_accepted_after_expiry}

-- The signatures are judged without the record of nonces.
tally-replay :
    (crypto : Crypto) (v : Verifier) (r : Option ReplayGuard) (now : ℕ) (payload : String)
    (ss : List Signature) (t : Tally)
    → tally crypto (record v { replay = r }) now payload ss t ≡ tally crypto v now payload ss t
unfolding tally tally_one vouches
tally-replay crypto v r now payload [] t = refl
tally-replay crypto v r now payload (s ∷ ss) t =
    tally-replay crypto v r now payload ss (tally_one crypto v now payload s t)

verify_signatures-replay :
    (crypto : Crypto) (v : Verifier) (r : Option ReplayGuard) (now : ℕ) (payload : String)
    (ss : List Signature)
    → verify_signatures crypto (record v { replay = r }) now payload ss
      ≡ verify_signatures crypto v now payload ss
unfolding verify_signatures
verify_signatures-replay crypto v r now payload [] = refl
verify_signatures-replay crypto v r now payload (s ∷ ss) =
    rw (tally-replay crypto v r now payload (s ∷ ss) empty_tally)

check_binding-replay :
    (v : Verifier) (r : Option ReplayGuard) (i : Instruction) (now : ℕ)
    → check_binding (record v { replay = r }) i now ≡ check_binding v i now
unfolding check_binding
check_binding-replay v r i now = refl

check_binding_later :
    (v : Verifier) (i : Instruction) (now later : ℕ)
    → check_binding v i now ≡ ok tt
    → now ≤ later
    → later ≤ i.expires_at + 120000000000
    → check_binding v i later ≡ ok tt
unfolding check_binding
check_binding_later v i now later h le within = ground arith

check_envelope_later :
    (crypto : Crypto) (v : Verifier) (r : Option ReplayGuard) (now later : ℕ) (e : Envelope)
    (i : Verified)
    → check_envelope crypto v now e ≡ ok i
    → verify_signatures crypto v later e.payload e.signatures ≡ ok i.verified_by
    → now ≤ later
    → later ≤ i.instruction.expires_at + 120000000000
    → check_envelope crypto (record v { replay = r }) later e ≡ ok i
unfolding check_envelope
check_envelope_later crypto v r now later e i h signed le within = ground (
  arith,
  check_envelope-eq_ok crypto v now e i h,
  verify_signatures-replay crypto v r later e.payload e.signatures,
  check_binding_later v i.instruction now later,
  check_binding-replay v r i.instruction later,
)

consume_nonce-eq_ok_some :
    (crypto : Crypto) (f : GuardFaults) (now : ℕ) (i : Verified) (v : Verifier) (g : ReplayGuard)
    → v.replay ≡ some g
    → (consume_nonce crypto f now i v).0 ≡ ok i
    → ((consume f now i.instruction.nonce i.instruction.expires_at g).0 ≡ ok tt)
      × ((consume_nonce crypto f now i v).1 ≡ record v {
        replay = some (consume f now i.instruction.nonce i.instruction.expires_at g).1;
      })
unfolding consume_nonce
consume_nonce-eq_ok_some crypto f now i v g e h = ground arith

consume_nonce_again :
    (crypto : Crypto) (f : GuardFaults) (now : ℕ) (i : Verified) (v : Verifier) (g : ReplayGuard)
    → v.replay ≡ some g
    → (consume f now i.instruction.nonce i.instruction.expires_at g).0 ≡ ok tt
    → (consume_nonce crypto f now i v).0 ≡ ok i
unfolding consume_nonce
consume_nonce_again crypto f now i v g e h = ground arith

-- An instruction that was accepted and whose nonce was recorded is accepted a second time, by the
-- same verifier and its updated record, at every time after the expiry and within the two minutes of
-- clock skew, if its signatures still verify then, the record can be written, and the record that the
-- first call loads (from its file, in a new process) has at most 4095 entries.
pub replay_window :
    (crypto : Crypto) (f f' : GuardFaults) (now later : ℕ) (e : Envelope) (v : Verifier)
    (g : ReplayGuard) (i : Verified)
    → v.replay ≡ some g
    → length (load f g).0.entries + 1 ≤ 4096
    → (verify crypto f now (some e) v).0 ≡ ok i
    → verify_signatures crypto v later e.payload e.signatures ≡ ok i.verified_by
    → persist f' ≡ ok tt
    → now ≤ later
    → i.instruction.expires_at < later
    → later ≤ i.instruction.expires_at + 120000000000
    → (verify crypto f' later (some e) (verify crypto f now (some e) v).1).0 ≡ ok i
unfolding verify
replay_window crypto f f' now later e v g i guarded small h signed written le lt within =
    let checked = verify-eq_ok crypto f now e v h in
    let first = consume_nonce-eq_ok_some crypto f now i v g guarded (rw (checked, verify) at h) in
    let g' = (consume f now i.instruction.nonce i.instruction.expires_at g).1 in
    let again =
      nonce_accepted_after_expiry f f' now later i.instruction.nonce i.instruction.expires_at g
        small written first.0 lt in
    let after : (verify crypto f now (some e) v).1 ≡ record v { replay = some g' } =
      rw (checked, verify) first.1 in
    rw after (
      rw (check_envelope_later crypto v (some g') now later e i checked signed le within, verify)
        (consume_nonce_again crypto f' later i (record v { replay = some g' }) g' refl again))
