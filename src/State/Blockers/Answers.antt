-- ===== src/State/Blockers/Answers.antt =====
-- Blockers: fresh ids, single answers, single consumption, the option index and the re-ping clock.
use end_of_line.Shared.{
  ℕ, suc, ◌+◌, ◌≤◌, ◌<◌, String, none, some, List, [], ◌∷◌, ◌++◌, true, false, ◌≡◌, ◌≢◌, ◌↔◌, inl,
  inr, refl, arith, length, filter, get_elem?, ok, err, key_error, ◌==◌, nat_eq, Bool-cases,
  Option-cases, ◌&&◌, subst,
}
use end_of_line.State.{Plan, Blocker, second, utcnow, parse_iso}
use end_of_line.State.Claims.{append_event}
use end_of_line.State.Blockers.{
  add_blocker, is_unanswered, answer_first, answer_blocker, answered_event, parse_index,
  resolve_answer, open_blockers, stuck_threshold, pinged_recently, needs_reping,
}

-- The blockers are numbered in order, from n + 1 on.
abbrev pub NumberedFrom : ℕ → List Blocker → Type 0
NumberedFrom n [] = Unit
NumberedFrom n (b ∷ bs) = (b.id ≡ suc n) × NumberedFrom (suc n) bs

NumberedFrom-append :
    (n : ℕ) (bs : List Blocker) (b : Blocker)
    → NumberedFrom n bs
    → b.id ≡ n + length bs + 1
    → NumberedFrom n (bs ++ b ∷ [])
NumberedFrom-append n [] b h e = (omega arith, tt)
NumberedFrom-append n (c ∷ bs) b h e = (h.0, NumberedFrom-append (suc n) bs b h.1 (omega arith))

-- No blocker of the list has that id.
abbrev pub NoId : ℕ → List Blocker → Type 0
NoId n [] = Unit
NoId n (b ∷ bs) = (b.id ≢ n) × NoId n bs

NumberedFrom-NoId :
    (n m : ℕ) (bs : List Blocker) → NumberedFrom n bs → n + length bs < m → NoId m bs
NumberedFrom-NoId n m [] h l = tt
NumberedFrom-NoId n m (b ∷ bs) h l =
    ((λ e. ground (arith, h.0)), NumberedFrom-NoId (suc n) m bs h.1 (omega arith))

NumberedFrom-below : (n m : ℕ) (bs : List Blocker) → NumberedFrom n bs → m ≤ n → NoId m bs
NumberedFrom-below n m [] h l = tt
NumberedFrom-below n m (b ∷ bs) h l =
    ((λ e. ground (arith, h.0)), NumberedFrom-below (suc n) m bs h.1 (omega arith))

-- A new blocker takes an id that no blocker of the plan has, and the numbering goes on.
pub add_blocker-fresh :
    (now : ℕ) (phase question : String) (options : List String) (context kind : String)
    (plan : Plan)
    → NumberedFrom 0 plan.blockers
    → let (n, plan') = add_blocker now phase question options context kind plan in
      NoId n plan.blockers × NumberedFrom 0 plan'.blockers
unfolding add_blocker append_event
add_blocker-fresh now phase question options context kind plan h = (
  NumberedFrom-NoId 0 (length plan.blockers + 1) plan.blockers h (omega arith),
  NumberedFrom-append 0 plan.blockers _ h (omega arith),
)

answer_first-NoId :
    (now n : ℕ) (answer : String) (bs : List Blocker)
    → NoId n bs
    → answer_first now n answer bs ≡ none
unfolding answer_first
answer_first-NoId now n answer [] h = refl
answer_first-NoId now n answer (b ∷ bs) h =
    ground (arith, answer_first-NoId now n answer bs h.1, h.0)

answer_first_twice :
    (now later n k : ℕ) (a a' : String) (bs bs' : List Blocker)
    → NumberedFrom k bs
    → answer_first now n a bs ≡ some bs'
    → answer_first later n a' bs' ≡ none
unfolding answer_first
answer_first_twice now later n k a a' [] bs' h e = ground arith
answer_first_twice now later n k a a' (b ∷ bs) bs' h e =
    elim (Bool-cases (b.id == n && is_unanswered b)) [
      | inl y ↦ ground (
        arith,
        h.0,
        answer_first-NoId later n a' bs (NumberedFrom-below (suc k) n bs h.1 (ground (arith, h.0))),
      )
      | inr m ↦ elim (Option-cases (answer_first now n a bs)) [
        | inl none_left ↦ ground arith
        | inr (more, f) ↦ ground (arith, answer_first_twice now later n (suc k) a a' bs more h.1 f)
      ]
    ]

-- The first answer is final: with the plan's own numbering a second reply to the same blocker is
-- refused, so it cannot overwrite an answer that a worker may already have acted on.
pub answer_blocker_twice :
    (now later n : ℕ) (a a' : String) (plan plan' : Plan)
    → NumberedFrom 0 plan.blockers
    → answer_blocker now n a plan ≡ ok plan'
    → answer_blocker later n a' plan' ≡ err key_error
unfolding answer_blocker append_event
answer_blocker_twice now later n a a' plan plan' h e =
    elim (Option-cases (answer_first now n a plan.blockers)) [
      | inl missing ↦ ground arith
      | inr (bs, f) ↦ ground (arith, answer_first_twice now later n 0 a a' plan.blockers bs h f)
    ]

-- How an answer changes the blockers: the first unanswered one of that id gets it, and the others
-- stay in place.
pub data Answers (now n : ℕ) (a : String) : List Blocker → List Blocker → Type 0 where
  here :
      {b : Blocker} {bs : List Blocker}
      → b.id ≡ n
      → is_unanswered b ≡ true
      → Answers now n a
          (b ∷ bs)
          (record b { answer = some a; answered_at = some (utcnow now) } ∷ bs)
  there :
      {b : Blocker} {bs cs : List Blocker}
      → (b.id == n && is_unanswered b) ≡ false
      → Answers now n a bs cs
      → Answers now n a (b ∷ bs) (b ∷ cs)

answer_first-Answers :
    (now n : ℕ) (a : String) (bs cs : List Blocker)
    → answer_first now n a bs ≡ some cs
    → Answers now n a bs cs
unfolding answer_first
answer_first-Answers now n a [] cs e = ground arith
answer_first-Answers now n a (b ∷ bs) cs e = elim (Bool-cases (b.id == n && is_unanswered b)) [
  | inl y ↦
      subst (Answers now n a (b ∷ bs)) (ground arith) (here {bs = bs} (ground arith) (ground arith))
  | inr m ↦ elim (Option-cases (answer_first now n a bs)) [
    | inl none_left ↦ ground arith
    | inr (more, f) ↦
        subst (Answers now n a (b ∷ bs)) (ground arith)
          (there {cs = more} m (answer_first-Answers now n a bs more f))
  ]
]

Answers-open :
    (now n : ℕ) (a : String) (bs cs : List Blocker)
    → Answers now n a bs cs
    → length (filter is_unanswered bs) ≡ suc (length (filter is_unanswered cs))
Answers-open now n a bs cs (here {b} {bs = rest} e u) = ground arith
Answers-open now n a bs cs (there {b} {bs = xs} {cs = ys} m r) =
    ground (arith, Answers-open now n a xs ys r)

-- A reply that is accepted answers exactly one open blocker, the first of that id, and logs one
-- event; every other blocker stays as it was.
pub answer_blocker_lem :
    (now n : ℕ) (a : String) (plan plan' : Plan)
    → answer_blocker now n a plan ≡ ok plan'
    → Answers now n a plan.blockers plan'.blockers
      × (length (open_blockers plan) ≡ suc (length (open_blockers plan')))
      × (plan'.events ≡ plan.events ++ answered_event now n a ∷ [])
      × (plan'.status ≡ plan.status)
unfolding answer_blocker append_event open_blockers
answer_blocker_lem now n a plan plan' e = elim (Option-cases (answer_first now n a plan.blockers)) [
  | inl missing ↦ ground arith
  | inr (bs, f) ↦
      let r : Answers now n a plan.blockers bs = answer_first-Answers now n a plan.blockers bs f in
      let p : plan' ≡ append_event (answered_event now n a) (record plan { blockers = bs }) =
        ground arith in
      rw p (r, Answers-open now n a plan.blockers bs r, refl, refl)
]

-- What the operator's reply stands for: an index in range stands for its option; any other text,
-- an index out of range included, is stored as it is.
pub resolve_answer_lem :
    (options : List String) (raw : String)
    → ((i : ℕ) (o : String)
        → parse_index raw ≡ some i
        → get_elem? options i ≡ some o
        → resolve_answer options raw ≡ o)
      × ((i : ℕ)
          → parse_index raw ≡ some i
          → get_elem? options i ≡ none
          → resolve_answer options raw ≡ raw)
      × (parse_index raw ≡ none → resolve_answer options raw ≡ raw)
unfolding resolve_answer
resolve_answer_lem options raw = (
  (λ i o p g. rw (p, resolve_answer) (rw g refl)),
  (λ i p g. rw (p, resolve_answer) (rw g refl)),
  (λ p. rw (p, resolve_answer) refl),
)

-- A blocker that was pinged now is not pinged again within the half hour, however often the
-- supervisor ticks.
pub no_second_reping :
    (now later : ℕ) (b : Blocker)
    → later + second ≤ now + stuck_threshold
    → needs_reping later (record b { last_repinged_at = some (utcnow now) }) ≡ false
no_second_reping now later b h = ground arith

-- A ping is due exactly for an open blocker that is half an hour old, and was not pinged since.
pub needs_reping_iff :
    (now asked : ℕ) (b : Blocker)
    → parse_iso b.asked_at ≡ some asked
    → (needs_reping now b ≡ true) ↔ (
        (b.consumed ≡ false)
        × (b.answer ≡ none)
        × (asked + stuck_threshold ≤ now)
        × (pinged_recently now b.last_repinged_at ≡ false))
needs_reping_iff now asked b e = elim (Bool-cases (pinged_recently now b.last_repinged_at)) [
  | inl y ↦ rw y ((λ h. ground arith), (λ h. ground arith))
  | inr m ↦ rw m ((λ h. (ground arith, ground arith, ground arith, refl)), (λ h. ground arith))
]
