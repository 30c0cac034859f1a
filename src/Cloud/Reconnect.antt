-- ===== src/Cloud/Reconnect.antt =====
-- When the cloud connection is tried again (crates/argus-cloud/src/client/supervisor.rs, with the
-- failures of crates/argus-cloud/src/client/handshake.rs).
pub mod Schedule
use argus_ai.Prelude.{
  ℕ, max, Bool, true, false, not, Option, none, some, List, String, eqb, string_eq, if◌then◌else◌,
}
use argus_ai.Cloud.Backoff
use argus_ai.Cloud.Backoff.{Backoff, next_delay, reset}

pub data HandshakeFailure : Type 0 where
  rejected : String → String → HandshakeFailure
  cloud_identity_mismatch : String → String → HandshakeFailure
  cloud_closed : HandshakeFailure
  unexpected : String → HandshakeFailure
  unsupported_version : List String → HandshakeFailure
  malformed : String → HandshakeFailure

-- Whether the cloud refused the session with the code.
abbrev pub has_code : HandshakeFailure → String → Bool
has_code (rejected code message) wanted = eqb code wanted
has_code _ wanted = false

abbrev pub is_unsupported : HandshakeFailure → Bool
is_unsupported (unsupported_version offered) = true
is_unsupported _ = false

unfoldable pub is_terminal : HandshakeFailure → Bool
is_terminal f = has_code f "REVOKED"

unfoldable pub is_rate_limited : HandshakeFailure → Bool
is_rate_limited f = has_code f "RATE_LIMITED"

unfoldable pub allows_retry : HandshakeFailure → Bool
unfolding is_terminal
allows_retry f = not (is_terminal f)

pub data ConnectionOutcome : Type 0 where
  session_ended stopped : ConnectionOutcome
  handshake_failed : HandshakeFailure → ConnectionOutcome
  transport_failed : String → ConnectionOutcome

pub data StopReason : Type 0 where
  revoked no_version requested not_enrolled : StopReason

pub data NextAction : Type 0 where
  reconnect : ℕ → NextAction
  stop : StopReason → NextAction

pub record ReconnectPolicy : Type 0 where
  pub backoff : Backoff
  pub rate_limit_floor : ℕ

-- Sixty seconds.
abbrev pub sixty_seconds : ℕ
sixty_seconds = 60000000000

unfoldable pub with_seed : ℕ → ℕ → ℕ → ReconnectPolicy
with_seed base maximum seed = record {
  backoff = Backoff.with_seed base maximum seed;
  rate_limit_floor = sixty_seconds;
}

unfoldable pub note_connected : ReconnectPolicy → ReconnectPolicy
note_connected p = record p { backoff = reset p.backoff }

floored : ReconnectPolicy → ℕ → Option (Backoff × ℕ) → Option (ReconnectPolicy × NextAction)
floored p floor none = none
floored p floor (some (b, delay)) = some (record p { backoff = b }, reconnect (max delay floor))

-- The next delay, no shorter than the floor; `none` is a panic of the backoff.
delayed : ReconnectPolicy → ℕ → Option (ReconnectPolicy × NextAction)
unfolding floored
delayed p floor = floored p floor (next_delay p.backoff)

after_failure : ReconnectPolicy → HandshakeFailure → Option (ReconnectPolicy × NextAction)
unfolding delayed is_terminal is_rate_limited
after_failure p f =
    if is_terminal f
    then some (p, stop revoked)
    else if is_unsupported f
    then some (p, stop no_version)
    else if has_code f "UNSUPPORTED_VERSION"
    then some (p, stop no_version)
    else delayed p (if is_rate_limited f then p.rate_limit_floor else 0)

unfoldable pub after : ReconnectPolicy → ConnectionOutcome → Option (ReconnectPolicy × NextAction)
unfolding delayed after_failure
after p stopped = some (p, stop requested)
after p session_ended = delayed p 0
after p (transport_failed message) = delayed p 0
after p (handshake_failed f) = after_failure p f
