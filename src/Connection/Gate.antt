-- ===== src/Connection/Gate.antt =====
-- The auto-upgrade gate of crates/supervisor-core/src/connection.rs: an available update is handed
-- over when the node has been idle for the quiet period. Instants and durations count nanoseconds.
use decent_render.Prelude.{
  ℕ, ◌+◌, ◌-◌, ◌*◌, ◌^◌, ◌≤◌, ◌≡◌, refl, ◌⊎◌, inl, inr, Bool, true, false, not, ◌&&◌, ◌||◌, List,
  [], ◌∷◌, Option, none, some, Text, option_text_eq, option_text_eq_iff, sym, ◌∙◌, Option-cases,
  leb, ltb, is_some, if◌then◌else◌, arith,
}

pub record AutoUpgradePolicy : Type 0 where
  pub quiet_period : ℕ
  pub suppressed_version : Option Text
  pub suppressed_for : Option ℕ

pub record AutoUpgradeGate : Type 0 where
  pub policy : Option AutoUpgradePolicy
  pub target : Option Text
  pub idle_since : Option ℕ
  pub suppressed_until : Option ℕ

-- `Instant::checked_add`: the seconds of an instant are an i64.
abbrev instant_max : ℕ
instant_max = 2 ^ 63 * 1_000_000_000 - 1

suppression_end : Option AutoUpgradePolicy → ℕ → Option ℕ
suppression_end none now = none
suppression_end (some p) now = elim p.suppressed_for [
  | none ↦ none
  | some duration ↦ if leb (now + duration) instant_max then some (now + duration) else none
]

unfoldable pub new_at : Option AutoUpgradePolicy → ℕ → AutoUpgradeGate
unfolding suppression_end
new_at policy now = record {
  policy = policy;
  target = none;
  idle_since = none;
  suppressed_until = suppression_end policy now;
}

unfoldable pub announce : Text → AutoUpgradeGate → AutoUpgradeGate
announce version g =
    if option_text_eq g.target (some version)
    then g
    else record g { target = some version; idle_since = none }

unfoldable pub mark_busy : AutoUpgradeGate → AutoUpgradeGate
mark_busy g = record g { idle_since = none }

suppressed_version_of : Option AutoUpgradePolicy → Option Text
suppressed_version_of none = none
suppressed_version_of (some p) = p.suppressed_version

before : ℕ → Option ℕ → Bool
before now none = false
before now (some until) = ltb now until

unfoldable pub target_suppressed : AutoUpgradeGate → ℕ → Bool
unfolding suppressed_version_of before
target_suppressed g now =
    option_text_eq (suppressed_version_of g.policy) g.target && before now g.suppressed_until

-- `get_or_insert`.
abbrev or_insert : Option ℕ → ℕ → Option ℕ
or_insert none now = some now
or_insert (some t) now = some t

unfoldable pub observe : Bool → Bool → ℕ → AutoUpgradeGate → AutoUpgradeGate
unfolding target_suppressed
observe enabled idle now g =
    if not (is_some g.policy)
      || (not (is_some g.target) || (target_suppressed g now || (not enabled || not idle)))
    then record g { idle_since = none }
    else record g { idle_since = or_insert g.idle_since now }

quiet_enough : AutoUpgradePolicy → Option ℕ → Option Text → ℕ → Option Text
quiet_enough p none target now = none
quiet_enough p (some since) target now = if leb p.quiet_period (now - since) then target else none

unfoldable pub ready : ℕ → AutoUpgradeGate → Option Text
unfolding quiet_enough
ready now g = elim g.policy [ none ↦ none | some p ↦ quiet_enough p g.idle_since g.target now ]

none-ne-some : {t : ℕ} → ◌≡◌ {A = Option ℕ} none (some t) → ⊥
none-ne-some h = cc

-- What the session does to the gate, and a history of it, the latest first.
pub data Call : Type 0 where
  announces : Text → Call
  marks_busy : Call
  observes : Bool → Bool → ℕ → Call

unfoldable pub apply : Call → AutoUpgradeGate → AutoUpgradeGate
apply (announces v) g = announce v g
apply marks_busy g = mark_busy g
apply (observes enabled idle now) g = observe enabled idle now g

unfoldable pub run : Option AutoUpgradePolicy → ℕ → List Call → AutoUpgradeGate
unfolding apply
run policy start [] = new_at policy start
run policy start (c ∷ cs) = apply c (run policy start cs)

-- The call leaves an idle window for `v` open.
abbrev pub IsQuiet : Text → Call → Type 0
IsQuiet v (announces w) = w ≡ v
IsQuiet v marks_busy = ⊥
IsQuiet v (observes enabled idle now) = (enabled ≡ true) × (idle ≡ true)

-- The node has been idle, with upgrades enabled and `v` the one announced, since a tick at `t`.
pub data IdleSince (v : Text) (t : ℕ) : List Call → Type 0 where
  opened : (cs : List Call) → IdleSince v t (observes true true t ∷ cs)
  stayed : (c : Call) (cs : List Call) → IsQuiet v c → IdleSince v t cs → IdleSince v t (c ∷ cs)

observe-window :
    (g : AutoUpgradeGate) (enabled idle : Bool) (now t : ℕ)
    → (observe enabled idle now g).idle_since ≡ some t
    → (enabled ≡ true)
      × (idle ≡ true)
      × (target_suppressed g now ≡ false)
      × (((g.idle_since ≡ none) × (now ≡ t)) ⊎ (g.idle_since ≡ some t))
unfolding observe
observe-window g enabled idle now t h = ground arith

observe-target :
    (g : AutoUpgradeGate) (enabled idle : Bool) (now : ℕ)
    → ((observe enabled idle now g).target ≡ g.target)
      × ((observe enabled idle now g).policy ≡ g.policy)
unfolding observe
observe-target g enabled idle now = ground arith

announce-window :
    (g : AutoUpgradeGate) (w : Text) (t : ℕ)
    → (announce w g).idle_since ≡ some t
    → (announce w g ≡ g) × (g.target ≡ some w)
unfolding announce
announce-window g w t h = ground (arith, option_text_eq_iff g.target (some w))

-- The gate's window is one of the history.
window :
    (policy : Option AutoUpgradePolicy) (start : ℕ) (cs : List Call) (v : Text) (t : ℕ)
    → (run policy start cs).target ≡ some v
    → (run policy start cs).idle_since ≡ some t
    → IdleSince v t cs
unfolding run new_at mark_busy
window policy start [] v t target since = absurd (none-ne-some since)
window policy start (announces w ∷ cs) v t target since =
    let (same, named) = announce-window (run policy start cs) w t since in
    stayed (announces w) cs (ground (arith, same, named, target))
      (window policy start cs v t (rw same at target) (rw same at since))
window policy start (marks_busy ∷ cs) v t target since = absurd (none-ne-some since)
window policy start (observes enabled idle now ∷ cs) v t target since =
    let g = run policy start cs in
    let (en, id, _, opening) = observe-window g enabled idle now t since in
    let named : g.target ≡ some v = sym (observe-target g enabled idle now).0 ∙ target in
    elim opening [
      | inl (_, e) ↦ rw (en, id, e) (opened cs)
      | inr older ↦
          stayed (observes enabled idle now) cs (en, id) (window policy start cs v t named older)
    ]

ready_parts :
    (g : AutoUpgradeGate) (now : ℕ) (v : Text)
    → ready now g ≡ some v
    → (p : AutoUpgradePolicy) × (t : ℕ) × (g.policy ≡ some p)
      × (g.idle_since ≡ some t)
      × (p.quiet_period ≤ now - t)
      × (g.target ≡ some v)
unfolding ready
ready_parts g now v h = elim (Option-cases g.policy) [
  | inl unset ↦ absurd (ground (arith, unset))
  | inr (p, e) ↦ elim (Option-cases g.idle_since) [
    | inl closed ↦ absurd (ground (arith, e, closed))
    | inr (t, open') ↦ (p, t, e, open', ground (arith, e, open'), ground (arith, e, open'))
  ]
]

run-policy :
    (policy : Option AutoUpgradePolicy) (start : ℕ) (cs : List Call)
    → (run policy start cs).policy ≡ policy
unfolding run new_at mark_busy announce
run-policy policy start [] = refl
run-policy policy start (announces w ∷ cs) = ground (arith, run-policy policy start cs)
run-policy policy start (marks_busy ∷ cs) = run-policy policy start cs
run-policy policy start (observes enabled idle now ∷ cs) =
    (observe-target (run policy start cs) enabled idle now).1 ∙ run-policy policy start cs

-- When the gate hands a version over, a policy is set, and for at least its quiet period the node
-- has been idle with upgrades enabled: a tick found it so then, every tick since found it so, no
-- job was accepted since, and no other version was announced since.
pub ready_lem :
    (policy : Option AutoUpgradePolicy) (start : ℕ) (cs : List Call) (now : ℕ) (v : Text)
    → ready now (run policy start cs) ≡ some v
    → (p : AutoUpgradePolicy) × (t : ℕ) × (policy ≡ some p)
      × (p.quiet_period ≤ now - t)
      × IdleSince v t cs
ready_lem policy start cs now v h =
    let (p, t, has, since, quiet, target) = ready_parts (run policy start cs) now v h in
    (p, t, sym (run-policy policy start cs) ∙ has, quiet, window policy start cs v t target since)
