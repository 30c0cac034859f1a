-- ===== src/Policy/Autopilot.antt =====
-- The resource-autopilot governor of crates/argus-policy/src/autopilot.rs. The clock is an argument
-- of each call. What a call does under the lock of the grants is one state change: `rate_limited`
-- and `record_grant` are such, and `evaluate` is two, between which other callers may come. Here it
-- is the two in turn; InFlight interleaves those of many callers.
pub mod Limits
pub mod Trace
pub mod Cooldown
pub mod InFlight
use argus_ai.Prelude.{
  ℕ, Bool, true, false, ◌&&◌, ◌||◌, Option, none, some, List, [], ◌∷◌, ◌++◌, String, length, ltb,
  leb, eqb, string_eq, if◌then◌else◌,
}
use argus_ai.Prelude.Int.{ℤ, pos, ◌-ℤ◌, ltb_ℤ, leb_ℤ}
use argus_ai.Prelude.Assoc
use argus_ai.Policy.Escalation.{Criticality, is_guarded}

pub record ResourceAdjustment : Type 0 where
  pub subject : String
  pub capability : String
  pub reason : String

pub data Refusal : Type 0 where
  unclassified protected budget_exhausted cooldown : Refusal

-- The reason text of an allowed decision is prose over the subject and its tier.
pub data GovernanceDecision : Type 0 where
  allowed : String → Criticality → GovernanceDecision
  refused : Refusal → GovernanceDecision

unfoldable pub is_allowed : GovernanceDecision → Bool
is_allowed (allowed subject tier) = true
is_allowed (refused why) = false

-- `window` and `cooldown_per_subject` are durations in clock units; chrono's are signed.
pub record AutopilotLimits : Type 0 where
  pub budget_per_window : ℕ
  pub window : ℤ
  pub cooldown_per_subject : ℤ

-- One hour and ten minutes, in seconds.
abbrev pub default_limits : AutopilotLimits
default_limits = record {
  budget_per_window = 10;
  window = pos 3600;
  cooldown_per_subject = pos 600;
}

abbrev pub Grant : Type 0
Grant = ℤ × String

pub record AutopilotGovernor : Type 0 where
  pub criticality : List (String × Criticality)
  pub limits : AutopilotLimits
  pub granted : List Grant

unfoldable pub new : AutopilotLimits → AutopilotGovernor
new limits = record { criticality = []; limits = limits; granted = [] }

unfoldable pub classify : AutopilotGovernor → String → Criticality → AutopilotGovernor
classify g subject tier = record g { criticality = Assoc.insert subject tier g.criticality }

unfoldable pub classification : AutopilotGovernor → String → Option Criticality
classification g subject = Assoc.get subject g.criticality

-- Whether any grant is of the subject and more recent than the cooldown; the code walks them newest
-- first and keeps only whether one was found.
unfoldable pub cooling : List Grant → String → ℤ → ℤ → Bool
cooling [] subject now spacing = false
cooling ((at, s) ∷ gs) subject now spacing =
    (eqb s subject && ltb_ℤ (now -ℤ at) spacing) || cooling gs subject now spacing

-- The `while` loop that pops grants a window old, or older, from the front.
unfoldable pub expire : List Grant → ℤ → ℤ → List Grant
expire [] now window = []
expire ((at, s) ∷ gs) now window =
    let rest = expire gs now window in if leb_ℤ window (now -ℤ at) then rest else (at, s) ∷ gs

-- Past the classification: the cooldown, then the rolling window, whose expired grants are dropped.
rate_limited :
    AutopilotGovernor
    → ResourceAdjustment
    → Criticality
    → ℤ
    → AutopilotGovernor × GovernanceDecision
rate_limited g adjustment tier now =
    if cooling g.granted adjustment.subject now g.limits.cooldown_per_subject
    then (g, refused cooldown)
    else (let granted = expire g.granted now g.limits.window in
        (
          record g { granted = granted },
          if leb g.limits.budget_per_window (length granted)
              then refused budget_exhausted
              else allowed adjustment.subject tier,
        ))

unfoldable pub by_class :
    AutopilotGovernor
    → ResourceAdjustment
    → Option Criticality
    → ℤ
    → AutopilotGovernor × GovernanceDecision
unfolding rate_limited
by_class g adjustment none now = (g, refused unclassified)
by_class g adjustment (some tier) now =
    if is_guarded tier then (g, refused protected) else rate_limited g adjustment tier now

unfoldable pub decide :
    AutopilotGovernor → ResourceAdjustment → ℤ → AutopilotGovernor × GovernanceDecision
unfolding by_class
decide g adjustment now = by_class g adjustment (Assoc.get adjustment.subject g.criticality) now

-- `record` in the source.
unfoldable pub record_grant : AutopilotGovernor → ResourceAdjustment → ℤ → AutopilotGovernor
record_grant g adjustment now = record g { granted = g.granted ++ (now, adjustment.subject) ∷ [] }

-- The evaluation of a caller that meets no other. The clock is read once for the decision and once
-- more for the record.
unfoldable pub evaluate :
    AutopilotGovernor → ResourceAdjustment → ℤ → ℤ → AutopilotGovernor × GovernanceDecision
evaluate g adjustment now later =
    let (g', decision) = decide g adjustment now in
    (if is_allowed decision then record_grant g' adjustment later else g', decision)

-- The stand-in governor that refuses everything.
unfoldable pub no_governor : ResourceAdjustment → GovernanceDecision
no_governor adjustment = refused unclassified
