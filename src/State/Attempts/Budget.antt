-- ===== src/State/Attempts/Budget.antt =====
-- The attempt budget of end_of_line/state.py (`attempts_for_phase`).
use end_of_line.Shared.{
  ℕ, suc, ◌+◌, ◌≤◌, String, Option, none, some, List, [], ◌∷◌, ◌++◌, Bool, true, false, ◌≡◌, ◌≢◌,
  refl, arith, length, filter, drop, contains, drop-append_le, drop_all, length-append,
  contains-append, if◌then◌else◌, string_eq, length-filter-append, length-filter-skip,
  filter_map-append_none, filter_map-append_some, ◌∙◌, Bool-cases, inl, inr,
}
use end_of_line.State.{Plan, Event, kind_eq, option_text_eq}
use end_of_line.State.Claims.{append_event, is_start_of}
use end_of_line.State.Attempts.{
  is_reset_of, floor_loop, forgiven_token, forgiven_tokens, is_charged, is_attempt, attempts_in,
  attempts_for_phase,
}

floor_loop-append :
    (p : String) (i cut : ℕ) (xs : List Event) (e : Event)
    → floor_loop p i cut (xs ++ e ∷ [])
      ≡ (if is_reset_of p e then suc (i + length xs) else floor_loop p i cut xs)
unfolding floor_loop
floor_loop-append p i cut [] e = ground arith
floor_loop-append p i cut (x ∷ xs) e =
    ground (arith, floor_loop-append p (suc i) (if is_reset_of p x then suc i else cut) xs e)

floor_loop-le :
    (p : String) (i cut : ℕ) (xs : List Event) → cut ≤ i → floor_loop p i cut xs ≤ i + length xs
unfolding floor_loop
floor_loop-le p i cut [] h = omega arith
floor_loop-le p i cut (x ∷ xs) h =
    ground (arith, floor_loop-le p (suc i) (if is_reset_of p x then suc i else cut) xs)

-- The events that the count looks at, after one more event.
abbrev pub window : String → List Event → List Event
window p es = drop (floor_loop p 0 0 es) es

pub window-append :
    (p : String) (es : List Event) (e : Event)
    → window p (es ++ e ∷ []) ≡ (if is_reset_of p e then [] else window p es ++ e ∷ [])
window-append p es e = elim (Bool-cases (is_reset_of p e)) [
  | inl r ↦ rw r (
      rw (floor_loop-append p 0 0 es e) (
        rw r (
          drop_all (suc (0 + length es)) (es ++ e ∷ [])
            (omega (arith, length-append es (e ∷ []))))))
  | inr n ↦ rw n (
      rw (floor_loop-append p 0 0 es e) (
        rw n (
          drop-append_le (floor_loop p 0 0 es) es (e ∷ [])
            (omega (arith, floor_loop-le p 0 0 es (omega arith))))))
]

-- A retry or a reset of the phase gives it its whole budget back.
pub attempts_for_phase_reset :
    (plan : Plan) (p : String) (e : Event)
    → is_reset_of p e ≡ true
    → attempts_for_phase (append_event e plan) p ≡ 0
unfolding attempts_for_phase append_event
attempts_for_phase_reset plan p e h = rw (window-append p plan.events e) (rw h refl)

-- One more forgiven token changes the charge of that token's starts alone.
charged-more :
    (f : List String) (t : String) (by : Option String)
    → by ≢ some t
    → is_charged (f ++ t ∷ []) by ≡ is_charged f by
charged-more f t none h = refl
charged-more f t (some u) h = ground (arith, contains-append u f (t ∷ []), h)

-- No start of the phase among these events was made by that token.
abbrev pub NotStartedBy : String → String → List Event → Type 0
NotStartedBy p t [] = Unit
NotStartedBy p t (e ∷ es) = (is_start_of p e ≡ true → e.claimed_by ≢ some t) × NotStartedBy p t es

attempts-more :
    (p t : String) (f : List String) (xs : List Event)
    → NotStartedBy p t xs
    → length (filter (is_attempt p (f ++ t ∷ [])) xs) ≡ length (filter (is_attempt p f) xs)
attempts-more p t f [] h = refl
attempts-more p t f (x ∷ xs) h = elim (Bool-cases (is_start_of p x)) [
  | inl s ↦
      rw s (rw (charged-more f t x.claimed_by (h.0 s)) (ground (arith, attempts-more p t f xs h.1)))
  | inr n ↦ rw n (attempts-more p t f xs h.1)
]

forgiven-append :
    (p : String) (xs : List Event) (e : Event)
    → forgiven_token p e ≡ none
    → forgiven_tokens p (xs ++ e ∷ []) ≡ forgiven_tokens p xs
unfolding forgiven_tokens
forgiven-append p xs e h = filter_map-append_none (forgiven_token p) xs e h

forgiven-append_some :
    (p t : String) (xs : List Event) (e : Event)
    → forgiven_token p e ≡ some t
    → forgiven_tokens p (xs ++ e ∷ []) ≡ forgiven_tokens p xs ++ t ∷ []
unfolding forgiven_tokens
forgiven-append_some p t xs e h = filter_map-append_some (forgiven_token p) xs e t h

attempts_in-append :
    (p : String) (xs : List Event) (e : Event)
    → forgiven_token p e ≡ none
    → attempts_in p (xs ++ e ∷ [])
      ≡ attempts_in p xs + (if is_attempt p (forgiven_tokens p xs) e then 1 else 0)
unfolding attempts_in
attempts_in-append p xs e h =
    rw (forgiven-append p xs e h) (length-filter-append (is_attempt p (forgiven_tokens p xs)) xs e)

not_forgiving : (p : String) (e : Event) → is_start_of p e ≡ true → forgiven_token p e ≡ none
not_forgiving p e h = ground arith

not_resetting : (p : String) (e : Event) → is_start_of p e ≡ true → is_reset_of p e ≡ false
not_resetting p e h = ground arith

-- A start of the phase under a token that is not forgiven costs exactly one attempt.
pub attempts_for_phase_start :
    (plan : Plan) (p t : String) (e : Event)
    → is_start_of p e ≡ true
    → e.claimed_by ≡ some t
    → contains t (forgiven_tokens p (window p plan.events)) ≡ false
    → attempts_for_phase (append_event e plan) p ≡ suc (attempts_for_phase plan p)
unfolding attempts_for_phase append_event
attempts_for_phase_start plan p t e s by c = rw (window-append p plan.events e) (
    rw (not_resetting p e s)
      (ground (arith, attempts_in-append p (window p plan.events) e (not_forgiving p e s))))

-- An event that neither starts, resets nor forgives the phase costs nothing.
pub attempts_for_phase_other :
    (plan : Plan) (p : String) (e : Event)
    → is_start_of p e ≡ false
    → is_reset_of p e ≡ false
    → forgiven_token p e ≡ none
    → attempts_for_phase (append_event e plan) p ≡ attempts_for_phase plan p
unfolding attempts_for_phase append_event
attempts_for_phase_other plan p e s r f =
    rw (window-append p plan.events e)
      (rw r (ground (arith, attempts_in-append p (window p plan.events) e)))

skipped :
    (p t : String) (f : List String) (d : Event)
    → is_start_of p d ≡ false
    → is_attempt p (f ++ t ∷ []) d ≡ false
skipped p t f d h = rw h refl

charged_self :
    (f : List String) (t : String) (by : Option String)
    → by ≡ some t
    → is_charged (f ++ t ∷ []) by ≡ false
charged_self f t none h = cc
charged_self f t (some u) h = ground (arith, contains-append u f (t ∷ []))

forgiven_start :
    (p t : String) (f : List String) (s : Event)
    → s.claimed_by ≡ some t
    → is_attempt p (f ++ t ∷ []) s ≡ false
forgiven_start p t f s by = elim (Bool-cases (is_start_of p s)) [
  | inl y ↦ rw y (charged_self f t s.claimed_by by)
  | inr n ↦ rw n refl
]

attempts_in-forgive :
    (p t : String) (xs : List Event) (s d : Event)
    → is_start_of p s ≡ true
    → s.claimed_by ≡ some t
    → forgiven_token p d ≡ some t
    → is_start_of p d ≡ false
    → NotStartedBy p t xs
    → attempts_in p ((xs ++ s ∷ []) ++ d ∷ []) ≡ attempts_in p xs
unfolding attempts_in
attempts_in-forgive p t xs s d hs by hd nd fresh =
    rw (forgiven-append_some p t (xs ++ s ∷ []) d hd) (
      rw (forgiven-append p xs s (not_forgiving p s hs)) (
        length-filter-skip q (xs ++ s ∷ []) d (skipped p t f d nd)
        ∙ length-filter-skip q xs s (forgiven_start p t f s by)
        ∙ attempts-more p t f xs fresh))
  where
    f : List String
    f = forgiven_tokens p xs

    q : Event → Bool
    q = is_attempt p (f ++ t ∷ [])

death_no_start : (p t : String) (d : Event) → forgiven_token p d ≡ some t → is_start_of p d ≡ false
death_no_start p t d h = ground arith

death_no_reset : (p t : String) (d : Event) → forgiven_token p d ≡ some t → is_reset_of p d ≡ false
death_no_reset p t d h = ground arith

-- A dispatch whose worker dies of quota or of a systemic failure costs no attempt: a start under a
-- token that made no start since the last reset, and the death that names the token, leave the
-- count where it was.
pub attempts_for_phase_forgiven :
    (plan : Plan) (p t : String) (s d : Event)
    → is_start_of p s ≡ true
    → s.claimed_by ≡ some t
    → forgiven_token p d ≡ some t
    → NotStartedBy p t (window p plan.events)
    → attempts_for_phase (append_event d (append_event s plan)) p ≡ attempts_for_phase plan p
unfolding attempts_for_phase append_event
attempts_for_phase_forgiven plan p t s d hs by hd fresh =
    rw (window-append p (plan.events ++ s ∷ []) d) (
      rw (window-append p plan.events s) (
        rw (not_resetting p s hs) (
          rw (death_no_reset p t d hd) (
            attempts_in-forgive p t (window p plan.events) s d hs by hd (death_no_start p t d hd)
              fresh))))
