-- ===== src/State/Idle.antt =====
-- The idle watchdog's evidence in end_of_line/state.py: the history of processor-time samples, the
-- window predicate over it, the active-tool marker and the declared quiet span.
-- Durations are microseconds; a sample counts hundredths of a second, which is what `ps` prints.
pub mod Evidence
use end_of_line.Shared.{
  ℕ, zero, suc, ◌+◌, ◌-◌, ◌*◌, ◌/◌, String, Option, none, some, List, [], ◌∷◌, ◌++◌, Bool, true,
  false, ◌&&◌, not, if◌then◌else◌, ltb, leb, ◌==◌, nat_eq, filter, filter_map, drop, length,
  last_or, ℤ, pos, pos_part, min_ℤ,
}
use end_of_line.State.{Claim, Sample, QuietSpan, Stamp, second, minute, utcnow, parse_iso}

abbrev pub worker_idle_sample_cap : ℕ
worker_idle_sample_cap = 200

-- `claim.get("cpu_samples") or []`
abbrev pub samples_of : Claim → List Sample
samples_of claim = elim claim.cpu_samples [ none ↦ [] | some samples ↦ samples ]

-- A sample survives if its stamp can be read and is no older than the cutoff.
abbrev pub is_kept : ℕ → ℕ → Sample → Bool
is_kept now retain sample = elim (parse_iso sample.ts) [
  | none ↦ false
  | some ts ↦ leb now (ts + retain)
]

-- `del kept[: len(kept) - CAP]`; with no more than the cap nothing goes.
unfoldable pub capped : List Sample → List Sample
capped kept = drop (length kept - worker_idle_sample_cap) kept

unfoldable pub append_cpu_sample : Claim → ℕ → ℕ → ℕ → Claim
unfolding capped
append_cpu_sample claim cpu now retain =
    let samples = samples_of claim ++ record { ts = utcnow now; cpu = cpu } ∷ [] in
    record claim { cpu_samples = some (capped (filter (is_kept now retain) samples)) }

-- `[parse_iso(s["ts"]) for s in samples]`, or `none` where one cannot be read.
unfoldable pub stamps_of : List Sample → Option (List ℕ)
stamps_of [] = some []
stamps_of (s ∷ rest) = elim (parse_iso s.ts) [
  | none ↦ none
  | some ts ↦ elim (stamps_of rest) [ none ↦ none | some more ↦ some (ts ∷ more) ]
]

-- `any(later - earlier > gap for earlier, later in zip(stamps, stamps[1:]))`
unfoldable pub has_gap_after : ℕ → ℕ → List ℕ → Bool
has_gap_after gap earlier [] = false
has_gap_after gap earlier (later ∷ rest) =
    let more = has_gap_after gap later rest in if ltb (earlier + gap) later then true else more

abbrev last_cpu : Sample → List Sample → ℕ
last_cpu s rest = (last_or s rest).cpu

-- The four conditions on a history that starts with sample `s`, whose stamps are `first ∷ later`.
unfoldable pub judge_window : ℕ → ℕ → ℕ → ℕ → Sample → List Sample → ℕ → List ℕ → Bool
unfolding has_gap_after
judge_window now window gap threshold s rest first later =
    let newest = last_or first later in
    if ltb newest (first + window)
    then false
    else if has_gap_after gap first later
    then false
    else if ltb (newest + gap) now
    then false
    else if ltb (last_cpu s rest) s.cpu
    then false
    else leb (last_cpu s rest) (s.cpu + threshold)

abbrev pub judge : ℕ → ℕ → ℕ → ℕ → List Sample → Option (List ℕ) → Bool
judge now window gap threshold (s ∷ rest) (some (first ∷ later)) =
    judge_window now window gap threshold s rest first later
judge now window gap threshold _ _ = false

unfoldable pub worker_idle_window_satisfied : Claim → ℕ → ℕ → ℕ → ℕ → ℕ → Bool
unfolding stamps_of judge_window
worker_idle_window_satisfied claim now min_samples window gap threshold =
    if ltb (length (samples_of claim)) min_samples
    then false
    else judge now window gap threshold (samples_of claim) (stamps_of (samples_of claim))

abbrev pub activity_marker_fallback_bound : ℕ
activity_marker_fallback_bound = 300000000

abbrev pub marker_bound : ℕ → ℕ
marker_bound max_age = if max_age == 0 then activity_marker_fallback_bound else max_age

-- `age < max_age`, with the marker's instant moved to the other side.
unfoldable pub activity_marker_suppresses : Claim → ℕ → ℕ → Bool
activity_marker_suppresses claim now max_age = elim claim.active_tool_started_at [
  | none ↦ false
  | some marker ↦ elim (parse_iso marker) [
    | none ↦ false
    | some started ↦ ltb now (started + marker_bound max_age)
  ]
]

-- `max(0.0, min(expected, ceiling))`; both may be negative.
abbrev pub declared_length : ℤ → ℤ → ℕ
declared_length expected ceiling = pos_part (min_ℤ expected ceiling)

unfoldable pub build_quiet_span : String → ℤ → ℕ → ℤ → QuietSpan
build_quiet_span reason expected now ceiling = record {
  reason = reason;
  started_at = utcnow now;
  expires_at = utcnow (now + declared_length expected ceiling);
}

unfoldable pub quiet_span_active : Claim → ℕ → Bool
quiet_span_active claim now = elim claim.quiet_span [
  | none ↦ false
  | some span ↦ elim (parse_iso span.expires_at) [ none ↦ false | some expiry ↦ ltb now expiry ]
]
