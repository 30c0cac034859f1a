-- ===== src/Cloud/Reconnect/Schedule.antt =====
-- What the reconnect policy of crates/argus-cloud/src/client/supervisor.rs does over a whole run.
use argus_ai.Prelude.{
  ℕ, ◌≤◌, ◌≡◌, refl, sym, ◌⊎◌, inl, inr, ◌∙◌, max, Bool, Bool-cases, true, false, ◌||◌, Option,
  none, some, List, [], ◌∷◌, string_eq, arith, if◌then◌else◌,
}
use argus_ai.Cloud.Backoff
use argus_ai.Cloud.Backoff.{Backoff, IsInRange, IsDelay, next_delay, next_delay_lem, reset}
use argus_ai.Cloud.Reconnect.{
  has_code, is_unsupported, is_terminal, is_rate_limited, HandshakeFailure, ConnectionOutcome,
  session_ended, stopped, handshake_failed, transport_failed, NextAction, reconnect, stop,
  ReconnectPolicy, with_seed, note_connected, after, floored, delayed, after_failure, sixty_seconds,
}

-- The outcomes after which trying again is pointless: a human stopped the installation, the cloud
-- revoked it, or no protocol version is shared.
abbrev pub is_final : ConnectionOutcome → Bool
is_final stopped = true
is_final (handshake_failed f) =
    has_code f "REVOKED" || is_unsupported f || has_code f "UNSUPPORTED_VERSION"
is_final _ = false

abbrev pub is_stop : NextAction → Bool
is_stop (stop reason) = true
is_stop (reconnect delay) = false

abbrev pub is_slowed : ConnectionOutcome → Bool
is_slowed (handshake_failed f) = has_code f "RATE_LIMITED"
is_slowed _ = false

-- What an action may be, given whether the cloud asked to slow down: a stop, or a delay up to the
-- maximum, and at least the floor where it asked.
abbrev pub IsPaced : ℕ → ℕ → Bool → NextAction → Type 0
IsPaced maximum floor slow (stop reason) = Unit
IsPaced maximum floor slow (reconnect delay) =
    (delay ≤ max maximum floor)
    × ((slow ≡ true) ⊎ (delay ≤ maximum))
    × ((slow ≡ false) ⊎ (floor ≤ delay))

-- The bounds of the policy, which nothing changes.
record Bounded (maximum floor : ℕ) (p : ReconnectPolicy) : Type 0 where
  highest : p.backoff.maximum ≡ maximum
  lowest : p.rate_limit_floor ≡ floor

-- What the end of a connection leads to: no panic, an action that stops exactly after a final
-- outcome and is paced, and a policy of the same bounds.
abbrev Decides : ℕ → ℕ → ConnectionOutcome → Option (ReconnectPolicy × NextAction) → Type 0
Decides m f o none = ⊥
Decides m f o (some (p, action)) =
    Bounded m f p × (is_stop action ≡ is_final o) × IsPaced m f (is_slowed o) action

-- One event of supervision: a session was established, or a connection ended.
pub data Event : Type 0 where
  connected : Event
  ended : ConnectionOutcome → Event

abbrev policy_of : Option (ReconnectPolicy × NextAction) → Option ReconnectPolicy
policy_of none = none
policy_of (some (p, action)) = some p

unfoldable pub step : ReconnectPolicy → Event → Option ReconnectPolicy
step p connected = some (note_connected p)
step p (ended o) = policy_of (after p o)

-- The policy after some events, `none` where one of them panicked.
unfoldable pub run : Option ReconnectPolicy → List Event → Option ReconnectPolicy
run none es = none
run (some p) [] = some p
run (some p) (e ∷ es) = run (step p e) es

module _ (m f : ℕ) (in_range : IsInRange m) where
  -- A delay, and a policy of the same bounds.
  abbrev Delays : Bool → Option (ReconnectPolicy × NextAction) → Type 0
  Delays slow none = ⊥
  Delays slow (some (p, stop reason)) = ⊥
  Delays slow (some (p, reconnect delay)) = Bounded m f p × IsPaced m f slow (reconnect delay)

  floored-Delays :
      (p : ReconnectPolicy) (slow : Bool) (x : Option (Backoff × ℕ))
      → Bounded m f p
      → IsDelay p.backoff x
      → Delays slow (floored p (if slow then p.rate_limit_floor else 0) x)
  unfolding floored
  floored-Delays p slow none v d = absurd d
  floored-Delays p slow (some (b, delay)) v d = (
    record { highest = d.4 ∙ v.highest; lowest = v.lowest },
    ground (arith, d, v.highest, v.lowest),
  )

  delayed-Delays :
      (p : ReconnectPolicy) (slow : Bool)
      → Bounded m f p
      → Delays slow (delayed p (if slow then p.rate_limit_floor else 0))
  unfolding delayed
  delayed-Delays p slow v =
      floored-Delays p slow (next_delay p.backoff) v
        (next_delay_lem p.backoff (rw v.highest in_range))

  -- A delay is what the end of a connection that is not final may lead to.
  Delays-Decides :
      (o : ConnectionOutcome) (x : Option (ReconnectPolicy × NextAction))
      → is_final o ≡ false
      → Delays (is_slowed o) x
      → Decides m f o x
  Delays-Decides o none e d = d
  Delays-Decides o (some (p, stop reason)) e d = absurd d
  Delays-Decides o (some (p, reconnect delay)) e d = (d.0, sym e, d.1)

  failure-Decides :
      (p : ReconnectPolicy) (h : HandshakeFailure)
      → Bounded m f p
      → Decides m f (handshake_failed h) (after_failure p h)
  unfolding after_failure is_terminal is_rate_limited
  failure-Decides p h v = elim (Bool-cases (has_code h "REVOKED")) [
    | inl e ↦ rw e (v, rw e refl, tt)
    | inr e ↦ rw e (elim (Bool-cases (is_unsupported h)) [
      | inl u ↦ rw u (v, rw (e, u) refl, tt)
      | inr u ↦ rw u (elim (Bool-cases (has_code h "UNSUPPORTED_VERSION")) [
        | inl c ↦ rw c (v, rw (e, u, c) refl, tt)
        | inr c ↦ rw c (
            Delays-Decides (handshake_failed h)
              (delayed p (if has_code h "RATE_LIMITED" then p.rate_limit_floor else 0))
              (rw (e, u, c) refl) (delayed-Delays p (has_code h "RATE_LIMITED") v))
      ])
    ])
  ]

  after-Decides :
      (p : ReconnectPolicy) (o : ConnectionOutcome) → Bounded m f p → Decides m f o (after p o)
  unfolding after
  after-Decides p stopped v = (v, refl, tt)
  after-Decides p session_ended v =
      Delays-Decides session_ended (delayed p 0) refl (delayed-Delays p false v)
  after-Decides p (transport_failed message) v =
      Delays-Decides (transport_failed message) (delayed p 0) refl (delayed-Delays p false v)
  after-Decides p (handshake_failed h) v = failure-Decides p h v

  -- A policy of the bounds, and no panic.
  abbrev Runs : Option ReconnectPolicy → Type 0
  Runs none = ⊥
  Runs (some p) = Bounded m f p

  policy_of-Runs :
      (o : ConnectionOutcome) (x : Option (ReconnectPolicy × NextAction))
      → Decides m f o x
      → Runs (policy_of x)
  policy_of-Runs o none d = d
  policy_of-Runs o (some (p, action)) d = d.0

  step-Runs : (p : ReconnectPolicy) (e : Event) → Bounded m f p → Runs (step p e)
  unfolding step
  step-Runs p connected v =
      unfold note_connected reset in record { highest = v.highest; lowest = v.lowest }
  step-Runs p (ended o) v = policy_of-Runs o (after p o) (after-Decides p o v)

  run-Runs : (x : Option ReconnectPolicy) (es : List Event) → Runs x → Runs (run x es)
  unfolding run
  run-Runs none es v = v
  run-Runs (some p) [] v = v
  run-Runs (some p) (e ∷ es) v = run-Runs (step p e) es (step-Runs p e v)

action_of : Option (ReconnectPolicy × NextAction) → Option NextAction
action_of none = none
action_of (some (p, action)) = some action

-- What the policy that some events left answers to the end of a connection: `none` is a panic, there
-- or before.
unfoldable pub answer : Option ReconnectPolicy → ConnectionOutcome → Option NextAction
unfolding action_of
answer none o = none
answer (some p) o = action_of (after p o)

-- An answer that stops exactly after a final outcome, and else is paced.
abbrev pub Answers : ℕ → ℕ → ConnectionOutcome → Option NextAction → Type 0
Answers maximum floor o none = ⊥
Answers maximum floor o (some action) =
    (is_stop action ≡ is_final o) × IsPaced maximum floor (is_slowed o) action

action_of-Answers :
    (m f : ℕ) (o : ConnectionOutcome) (x : Option (ReconnectPolicy × NextAction))
    → Decides m f o x
    → Answers m f o (action_of x)
unfolding action_of
action_of-Answers m f o none d = d
action_of-Answers m f o (some (p, action)) d = (d.1, d.2)

answer-Answers :
    (m f : ℕ) (in_range : IsInRange m) (x : Option ReconnectPolicy) (o : ConnectionOutcome)
    → Runs m f in_range x
    → Answers m f o (answer x o)
unfolding answer
answer-Answers m f in_range none o v = v
answer-Answers m f in_range (some p) o v =
    action_of-Answers m f o (after p o) (after-Decides m f in_range p o v)

-- Where the larger of the configured maximum and base has fewer milliseconds than a `u64` holds at
-- most, no history of sessions and failures panics. Supervision stops exactly after a stop by a
-- human, a refusal as revoked or the lack of a shared protocol version; else the delay before the
-- next attempt is at most that larger one, unless the cloud asked to slow down: then it is at least
-- sixty seconds, and at most the largest of the three.
pub reconnect-IsPaced :
    (base maximum seed : ℕ) (es : List Event) (o : ConnectionOutcome)
    → IsInRange (max maximum base)
    → Answers
        (max maximum base)
        sixty_seconds
        o
        (answer (run (some (with_seed base maximum seed)) es) o)
reconnect-IsPaced base maximum seed es o h =
    let m = max maximum base in
    let p = with_seed base maximum seed in
    let start : Bounded m sixty_seconds p =
      unfold with_seed Backoff.with_seed in record { highest = refl; lowest = refl } in
    answer-Answers m sixty_seconds h (run (some p) es) o
      (run-Runs m sixty_seconds h (some p) es start)
