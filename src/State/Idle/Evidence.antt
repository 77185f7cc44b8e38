-- ===== src/State/Idle/Evidence.antt =====
-- The idle watchdog's evidence: what the window predicate means, what its history can hold, and
-- that every suppression ends.
use end_of_line.Shared.{
  ℕ, zero, suc, ◌+◌, ◌-◌, ◌*◌, ◌≤◌, ◌<◌, String, none, some, List, [], ◌∷◌, ◌++◌, Bool, true, false,
  ◌≡◌, ◌↔◌, refl, arith, length, length-drop, last_or, filter, drop, ℤ, pos, pos_part,
  length-append, Bool-cases, inl, inr, nat_eq, ap,
}
use end_of_line.State.{Claim, Sample, second, utcnow}
use end_of_line.State.Idle.{
  worker_idle_sample_cap, samples_of, is_kept, capped, append_cpu_sample, stamps_of, has_gap_after,
  judge_window, judge, worker_idle_window_satisfied, marker_bound, activity_marker_suppresses,
  build_quiet_span, quiet_span_active,
}

-- No two neighbours lie further apart than the gap.
abbrev pub Contiguous : ℕ → ℕ → List ℕ → Type 0
Contiguous gap earlier [] = Unit
Contiguous gap earlier (later ∷ rest) = (later ≤ earlier + gap) × Contiguous gap later rest

has_gap_after_iff : (gap e : ℕ) (l : List ℕ) → (has_gap_after gap e l ≡ false) ↔ Contiguous gap e l
unfolding has_gap_after
has_gap_after_iff gap e [] = ((λ h. tt), (λ h. refl))
has_gap_after_iff gap e (x ∷ l) = (
  (λ h. (ground arith, (has_gap_after_iff gap x l).0 (ground arith))),
  (λ h. ground (arith, (has_gap_after_iff gap x l).1 h.1)),
)

-- What the predicate asserts of a history that starts with `s` at the instant `first`.
pub record IsIdleEvidence (now window gap threshold : ℕ) (s : Sample) (rest : List Sample)
    (first : ℕ) (later : List ℕ) : Type 0 where
  pub spans : first + window ≤ last_or first later
  pub contiguous : Contiguous gap first later
  pub recent : now ≤ last_or first later + gap
  pub rising : s.cpu ≤ (last_or s rest).cpu
  pub quiet : (last_or s rest).cpu ≤ s.cpu + threshold

judge_window_iff :
    (now window gap threshold : ℕ) (s : Sample) (rest : List Sample) (first : ℕ) (later : List ℕ)
    → (judge_window now window gap threshold s rest first later ≡ true)
      ↔ IsIdleEvidence now window gap threshold s rest first later
unfolding judge_window
judge_window_iff now window gap threshold s rest first later =
    elim (Bool-cases (has_gap_after gap first later)) [
      | inl g ↦ (
        (λ h. ground arith),
        (λ v. absurd (ground (arith, (has_gap_after_iff gap first later).1 v.contiguous))),
      )
      | inr n ↦ (
        (λ h. record {
          spans = ground arith;
          contiguous = (has_gap_after_iff gap first later).0 n;
          recent = ground arith;
          rising = ground arith;
          quiet = ground arith;
        }),
        (λ v. ground arith),
      )
    ]

-- On a history that is not empty and whose stamps can be read, the predicate holds exactly when
-- there are enough samples, the observed span covers the window, no two neighbours are further
-- apart than the gap, the newest is no older than the gap, and the processor time rose by no more
-- than the threshold and did not fall.
pub worker_idle_window_iff :
    (claim : Claim) (now min_samples window gap threshold : ℕ) (s : Sample) (rest : List Sample)
    (first : ℕ) (later : List ℕ)
    → samples_of claim ≡ s ∷ rest
    → stamps_of (s ∷ rest) ≡ some (first ∷ later)
    → (worker_idle_window_satisfied claim now min_samples window gap threshold ≡ true) ↔ (
        (min_samples ≤ length (s ∷ rest))
        × IsIdleEvidence now window gap threshold s rest first later)
unfolding worker_idle_window_satisfied
worker_idle_window_iff claim now m window gap threshold s rest first later e t =
    rw (e, worker_idle_window_satisfied)
      (rw t (
        (λ h. (
          ground arith,
          (judge_window_iff now window gap threshold s rest first later).0 (ground arith),
        )),
        (λ v. ground (arith, (judge_window_iff now window gap threshold s rest first later).1 v.1)),
      ))

judge-none :
    (now window gap threshold : ℕ) (xs : List Sample)
    → judge now window gap threshold xs none ≡ false
judge-none now window gap threshold [] = refl
judge-none now window gap threshold (x ∷ xs) = refl

-- A history with an unreadable stamp is never evidence.
pub worker_idle_window_unreadable :
    (claim : Claim) (now min_samples window gap threshold : ℕ)
    → stamps_of (samples_of claim) ≡ none
    → worker_idle_window_satisfied claim now min_samples window gap threshold ≡ false
unfolding worker_idle_window_satisfied
worker_idle_window_unreadable claim now m window gap threshold h =
    rw (h, worker_idle_window_satisfied)
      (ground (arith, judge-none now window gap threshold (samples_of claim)))

Contiguous-span : (gap e : ℕ) (l : List ℕ) → Contiguous gap e l → last_or e l ≤ e + gap * length l
Contiguous-span gap e [] h = omega arith
Contiguous-span gap e (x ∷ l) h = grind (arith, Contiguous-span gap x l h.1)

length-stamps_of : (xs : List Sample) (ts : List ℕ) → stamps_of xs ≡ some ts → length ts ≡ length xs
unfolding stamps_of
length-stamps_of [] ts h = ground arith
length-stamps_of (x ∷ xs) [] h = ground arith
length-stamps_of (x ∷ xs) (t ∷ ts) h = ground (arith, length-stamps_of xs ts)

-- How much history evidence takes: a window needs at least window / gap samples after the first,
-- so a history thinned below that can never raise the alert.
pub idle_evidence_needs_samples :
    (now window gap threshold : ℕ) (s : Sample) (rest : List Sample) (first : ℕ) (later : List ℕ)
    → stamps_of (s ∷ rest) ≡ some (first ∷ later)
    → IsIdleEvidence now window gap threshold s rest first later
    → window ≤ gap * length rest
idle_evidence_needs_samples now window gap threshold s rest first later e v = grind (
  arith,
  Contiguous-span gap first later v.contiguous,
  length-stamps_of (s ∷ rest) (first ∷ later) e,
)

-- All instants lie in the interval.
abbrev pub Within : ℕ → ℕ → List ℕ → Type 0
Within lo hi [] = Unit
Within lo hi (t ∷ ts) = (lo ≤ t) × (t ≤ hi) × Within lo hi ts

last_or-Within :
    (lo hi t : ℕ) (ts : List ℕ) → Within lo hi (t ∷ ts) → (lo ≤ last_or t ts) × (last_or t ts ≤ hi)
last_or-Within lo hi t [] h = (h.0, h.1)
last_or-Within lo hi t (u ∷ ts) h = last_or-Within lo hi u ts h.2

judge_early :
    (now window gap threshold start : ℕ) (xs : List Sample) (ts : List ℕ)
    → Within start now ts
    → now < start + window
    → judge now window gap threshold xs (some ts) ≡ false
unfolding judge_window
judge_early now window gap threshold start [] ts h l = refl
judge_early now window gap threshold start (x ∷ xs) [] h l = refl
judge_early now window gap threshold start (x ∷ xs) (t ∷ ts) h l =
    ground (arith, last_or-Within start now t ts h, h.0)

-- A tool call that emptied the history at `start` buys a whole window of silence: no history
-- sampled since then can raise the alert before `start + window`.
pub idle_window_after_reset :
    (claim : Claim) (now start min_samples window gap threshold : ℕ) (ts : List ℕ)
    → stamps_of (samples_of claim) ≡ some ts
    → Within start now ts
    → now < start + window
    → worker_idle_window_satisfied claim now min_samples window gap threshold ≡ false
unfolding worker_idle_window_satisfied
idle_window_after_reset claim now start m window gap threshold ts e h l =
    rw (e, worker_idle_window_satisfied)
      (ground (arith, judge_early now window gap threshold start (samples_of claim) ts h l))

-- Every sample of the list satisfies the test.
abbrev pub Each : (Sample → Bool) → List Sample → Type 0
Each p [] = Unit
Each p (s ∷ rest) = (p s ≡ true) × Each p rest

Each-filter : (p : Sample → Bool) (xs : List Sample) → Each p (filter p xs)
Each-filter p [] = tt
Each-filter p (x ∷ xs) = elim (Bool-cases (p x)) [
  | inl y ↦ rw y (y, Each-filter p xs)
  | inr n ↦ rw n (Each-filter p xs)
]

Each-drop : (p : Sample → Bool) (n : ℕ) (xs : List Sample) → Each p xs → Each p (drop n xs)
Each-drop p zero xs h = h
Each-drop p (suc n) [] h = tt
Each-drop p (suc n) (x ∷ xs) h = Each-drop p n xs h.1

-- After an append the history holds at most the cap, and nothing unreadable or out of date.
pub append_cpu_sample_bounds :
    (claim : Claim) (cpu now retain : ℕ)
    → (length (samples_of (append_cpu_sample claim cpu now retain)) ≤ worker_idle_sample_cap)
      × Each (is_kept now retain) (samples_of (append_cpu_sample claim cpu now retain))
unfolding append_cpu_sample
append_cpu_sample_bounds claim cpu now retain = (
  omega (arith, length-drop (length kept - worker_idle_sample_cap) kept),
  Each-drop (is_kept now retain) (length kept - worker_idle_sample_cap) kept
      (Each-filter (is_kept now retain) (samples_of claim ++ fresh ∷ [])),
)
  where
    fresh : Sample
    fresh = record { ts = utcnow now; cpu = cpu }

    kept : List Sample
    kept = filter (is_kept now retain) (samples_of claim ++ fresh ∷ [])

filter-Each :
    (p : Sample → Bool) (xs : List Sample) (x : Sample)
    → Each p xs
    → p x ≡ true
    → filter p (xs ++ x ∷ []) ≡ xs ++ x ∷ []
filter-Each p [] x h k = rw k refl
filter-Each p (y ∷ xs) x h k = rw h.0 (ap (λ l. y ∷ l) (filter-Each p xs x h.1 k))

capped_short :
    (xs : List Sample) (x : Sample)
    → length xs < worker_idle_sample_cap
    → capped (xs ++ x ∷ []) ≡ xs ++ x ∷ []
unfolding capped
capped_short xs x h =
    let e : length (xs ++ x ∷ []) - worker_idle_sample_cap ≡ 0 =
      omega (arith, length-append xs (x ∷ [])) in
    rw e refl

-- While every older sample is within the retention and the cap is not reached, an append keeps the
-- whole history and puts the new sample at its end.
pub append_cpu_sample_keeps :
    (claim : Claim) (cpu now retain : ℕ)
    → Each (is_kept now retain) (samples_of claim)
    → length (samples_of claim) < worker_idle_sample_cap
    → second ≤ retain
    → samples_of (append_cpu_sample claim cpu now retain)
      ≡ samples_of claim ++ record { ts = utcnow now; cpu = cpu } ∷ []
unfolding append_cpu_sample
append_cpu_sample_keeps claim cpu now retain h l r =
    rw (filter-Each (is_kept now retain) (samples_of claim) fresh h (ground arith))
      (rw (capped_short (samples_of claim) fresh l) refl)
  where
    fresh : Sample
    fresh = record { ts = utcnow now; cpu = cpu }

-- The marker of a running tool silences the watchdog for a bounded time only, also where the
-- stuck-tool detector that lends the bound is switched off.
pub activity_marker_expires :
    (claim : Claim) (now max_age started : ℕ)
    → claim.active_tool_started_at ≡ some (utcnow started)
    → started + marker_bound max_age ≤ now
    → activity_marker_suppresses claim now max_age ≡ false
unfolding activity_marker_suppresses
activity_marker_expires claim now max_age started e h = ground arith

-- A declared quiet span ends no later than the ceiling allows, however much was asked for.
pub quiet_span_bounded :
    (claim : Claim) (reason : String) (expected ceiling : ℤ) (now later : ℕ)
    → now + pos_part ceiling ≤ later
    → quiet_span_active
        (record claim { quiet_span = some (build_quiet_span reason expected now ceiling) })
        later
      ≡ false
unfolding quiet_span_active build_quiet_span
quiet_span_bounded claim reason expected ceiling now later h = ground arith

-- Within the ceiling a span of at least a second lasts as long as it was declared for, less the
-- fraction of a second that the stamp drops.
pub quiet_span_lasts :
    (claim : Claim) (reason : String) (n : ℕ) (ceiling : ℤ) (now later : ℕ)
    → n ≤ pos_part ceiling
    → later + second ≤ now + n
    → quiet_span_active
        (record claim { quiet_span = some (build_quiet_span reason (pos n) now ceiling) })
        later
      ≡ true
unfolding quiet_span_active build_quiet_span
quiet_span_lasts claim reason n ceiling now later h l = ground arith
