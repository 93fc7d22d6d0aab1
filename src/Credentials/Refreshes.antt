-- ===== src/Credentials/Refreshes.antt =====
-- What a refresh accepts (core/enrollment/client.go, core/enrollment/refresh_v2.go).
use komari_agent.Shared.{
  ℕ, ◌+◌, ◌<◌, ◌≤◌, ◌≡◌, ◌≢◌, refl, inl, inr, Bool-cases, true, false, ◌==◌, Option, none, some,
  List, length, max, arith, String, str_eq, eq_iff, sym, ap, ◌∙◌, subst,
}
use komari_agent.Shared.Results.{ok, Result-cases, ok-injective}
use komari_agent.Signing.Verify.{Envelope}
use komari_agent.Credentials.Model.{RefreshAttempt, Identity}
use komari_agent.Credentials.Store.{Trust, with_trust}
use komari_agent.Credentials.Pins.{
  Issued, Proof, advances, is_bound, expires_after, has_digest, is_rotated, check_proof,
  verify_pending, verify_response, verify_pinned_envelope,
}
use komari_agent.Credentials.Rotation.{
  Reply, failed, answered, Exchange, Services, fetched, establish_trust, trust_of, with_credentials,
  accept_reply, refresh,
}
use komari_agent.Credentials.Threshold.{AllVouched, verify_pinned_envelope-vouched}

-- The generation after the one before, which is not the last, where there is one before.
abbrev pub IsNext : Option ℕ → ℕ → Type 0
IsNext none g = Unit {0}
IsNext (some n) g = (n ≢ 18446744073709551615) × (g ≡ n + 1)

advances-IsNext : (o : Option ℕ) (g : ℕ) → advances o g ≡ true → IsNext o g
advances-IsNext none g h = tt
advances-IsNext (some n) g h = ground arith

-- There is an expiry, and it is later than now.
abbrev pub IsUnexpired : ℕ → Option ℕ → Type 0
IsUnexpired now o = (t : ℕ) × (o ≡ some t) × (now < t)

expires_after-IsUnexpired :
    (now : ℕ) (o : Option ℕ) → expires_after now o ≡ true → IsUnexpired now o
expires_after-IsUnexpired now none h = cc
expires_after-IsUnexpired now (some t) h = (t, refl, ground arith)

has_digest-eq_true : (o : Option String) (d : String) → has_digest o d ≡ true → o ≡ some d
has_digest-eq_true none d h = cc
has_digest-eq_true (some x) d h = ap some (sym ((eq_iff d x).0 (ground arith)))

-- What stands behind credentials that replace those of an identity.
pub record IsGenuine (s : Services) (now : ℕ) (i : Identity) (pending : RefreshAttempt)
    (e : Envelope) (issued : Issued) (p : Proof) : Type 0 where
  pub decoded : s.codec.decode e.payload ≡ some p
  pub values : List String
  pub vouched : AllVouched s.crypto now i e.payload e.signatures values
  pub enough : max 1 i.policy_minimum_signatures ≤ length values
  pub protocol : p.protocol ≡ 2
  pub named_agent : p.agent_id ≡ i.agent_id
  pub same_agent : issued.agent_id ≡ i.agent_id
  pub same_request : p.request_id ≡ pending.request_id
  pub numbered : p.generation ≢ 0
  pub advanced : advances i.generation p.generation ≡ true
  pub next_generation : IsNext i.generation p.generation
  pub digest : s.codec.digest issued ≡ some p.credentials_sha256
  pub new_access : str_eq issued.access_token i.access_token ≡ false
  pub new_refresh : str_eq issued.refresh_token i.refresh_token ≡ false
  pub has_access : str_eq issued.access_token "" ≡ false
  pub has_refresh : str_eq issued.refresh_token "" ≡ false
  pub access_valid : IsUnexpired now issued.access_expiry
  pub refresh_valid : IsUnexpired now issued.refresh_expiry

module _ (s : Services) (now : ℕ) where
  checked :
      (i : Identity) (pending : RefreshAttempt) (issued : Issued) (o : Option Proof) {g : ℕ}
      → check_proof s.codec now i pending issued o ≡ ok g
      → (p : Proof) × (o ≡ some p)
        × (p.generation ≡ g)
        × (is_bound i pending issued p ≡ true)
        × (is_rotated s.codec now i issued p ≡ true)
  unfolding check_proof
  checked i pending issued none h = ground arith
  checked i pending issued (some p) h = (p, refl, ground arith, ground arith, ground arith)

  genuine :
      (i : Identity) (pending : RefreshAttempt) (e : Envelope) (issued : Issued) (p : Proof)
      → s.codec.decode e.payload ≡ some p
      → verify_pinned_envelope s.crypto now e i ≡ ok tt
      → is_bound i pending issued p ≡ true
      → is_rotated s.codec now i issued p ≡ true
      → IsGenuine s now i pending e issued p
  unfolding is_bound is_rotated
  genuine i pending e issued p d v b r =
      let (values, vouched, enough) = verify_pinned_envelope-vouched s.crypto now e i v in
      record {
        decoded = d;
        values = values;
        vouched = vouched;
        enough = enough;
        protocol = ground arith;
        named_agent = (eq_iff p.agent_id i.agent_id).0 (ground arith);
        same_agent = (eq_iff issued.agent_id i.agent_id).0 (ground arith);
        same_request = (eq_iff p.request_id pending.request_id).0 (ground arith);
        numbered = ground arith;
        advanced = ground arith;
        next_generation = advances-IsNext i.generation p.generation (ground arith);
        digest = has_digest-eq_true (s.codec.digest issued) p.credentials_sha256 (ground arith);
        new_access = ground arith;
        new_refresh = ground arith;
        has_access = ground arith;
        has_refresh = ground arith;
        access_valid = expires_after-IsUnexpired now issued.access_expiry (ground arith);
        refresh_valid = expires_after-IsUnexpired now issued.refresh_expiry (ground arith);
      }

  verify_pending-IsGenuine :
      (i : Identity) (e : Envelope) (issued : Issued) (o : Option RefreshAttempt) {g : ℕ}
      → verify_pending s.crypto s.codec now e i issued o ≡ ok g
      → (pending : RefreshAttempt) × (p : Proof) × (o ≡ some pending)
        × (p.generation ≡ g)
        × IsGenuine s now i pending e issued p
  unfolding verify_pending
  verify_pending-IsGenuine i e issued none h = ground arith
  verify_pending-IsGenuine i e issued (some pending) {g} h =
      elim (Result-cases (verify_pinned_envelope s.crypto now e i)) [
        | inl (_, v) ↦
            let c : check_proof s.codec now i pending issued (s.codec.decode e.payload) ≡ ok g =
              ground (arith, h, v) in
            let (p, d, n, b, r) = checked i pending issued (s.codec.decode e.payload) c in
            (pending, p, refl, n, genuine i pending e issued p d v b r)
        | inr (x, v) ↦ ground (arith, h, v)
      ]

-- A refresh that succeeds, with what it rests on.
pub record IsRefresh (s : Services) (now : ℕ) (x : Exchange) (i next : Identity) : Type 0 where
  pub trusted : Identity
  pub trust : establish_trust x.bundle i ≡ ok trusted
  pub pending : RefreshAttempt
  pub envelope : Envelope
  pub issued : Issued
  pub proof : Proof
  pub begun : i.pending_refresh ≡ some pending
  pub reply : x.reply ≡ answered (some envelope) (some issued)
  pub genuine : IsGenuine s now trusted pending envelope issued proof
  pub result : next ≡ with_credentials proof.generation issued trusted

pub trusted_differs_in_pins :
    (bundle : Option Trust) (i : Identity) {t : Identity}
    → establish_trust bundle i ≡ ok t
    → t ≡ with_trust (trust_of t) i
unfolding establish_trust fetched
trusted_differs_in_pins bundle i {t} h = elim (Bool-cases (length i.control_plane_keys == 0)) [
  | inr e ↦
      let same : i ≡ t = ok-injective (rw (establish_trust, e) at h) in
      subst (λ x. x ≡ with_trust (trust_of x) i) same refl
  | inl e ↦ go bundle (rw (establish_trust, e) at h)
]
  where
    go : (b : Option Trust) → fetched b i ≡ ok t → t ≡ with_trust (trust_of t) i
    go none h = ground (arith, h)
    go (some b) h = elim (Bool-cases (length b.keys == 0)) [
      | inl e ↦ cc (rw (fetched, e) at h)
      | inr e ↦
          let same : with_trust b i ≡ t = ok-injective (rw (fetched, e) at h) in
          subst (λ x. x ≡ with_trust (trust_of x) i) same refl
    ]

accepted :
    (s : Services) (now : ℕ) (t : Identity) (reply : Reply) {next : Identity}
    → accept_reply s now t reply ≡ ok next
    → (e : Envelope) × (issued : Issued) × (g : ℕ) × (reply ≡ answered (some e) (some issued))
      × (verify_pending s.crypto s.codec now e t issued t.pending_refresh ≡ ok g)
      × (next ≡ with_credentials g issued t)
unfolding accept_reply verify_response
accepted s now t (failed code) h = ground arith
accepted s now t (answered proof none) h = ground arith
accepted s now t (answered none (some issued)) h = ground arith
accepted s now t (answered (some e) (some issued)) h =
    elim (Result-cases (verify_pending s.crypto s.codec now e t issued t.pending_refresh)) [
      | inl (g, v) ↦
          (e, issued, g, refl, v, sym (ok-injective (rw (accept_reply, verify_response, v) at h)))
      | inr (x, v) ↦ cc (rw (accept_reply, verify_response, v) at h)
    ]

pub refresh-IsRefresh :
    (s : Services) (now : ℕ) (x : Exchange) (i : Identity) {next : Identity}
    → refresh s now x i ≡ ok next
    → IsRefresh s now x i next
unfolding refresh
refresh-IsRefresh s now x i {next} h = elim (Result-cases (establish_trust x.bundle i)) [
  | inr (_, t) ↦ ground (arith, h, t)
  | inl (trusted, t) ↦
      let a : accept_reply s now trusted x.reply ≡ ok next = ground (arith, h, t) in
      let (e, issued, g, reply, v, result) = accepted s now trusted x.reply a in
      let (pending, p, q, n, genuine) =
        verify_pending-IsGenuine s now trusted e issued trusted.pending_refresh v in
      record {
        trusted = trusted;
        trust = t;
        pending = pending;
        envelope = e;
        issued = issued;
        proof = p;
        begun = ap (λ y. y.pending_refresh) (sym (trusted_differs_in_pins x.bundle i t)) ∙ q;
        reply = reply;
        genuine = genuine;
        result = result ∙ ap (λ k. with_credentials k issued trusted) (sym n);
      }
]
