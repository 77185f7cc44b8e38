-- ===== src/Replies/Sorting.antt =====
-- The sort of `_pick_by_last_pinged` in end_of_line/notify_base.py loses and adds nothing, and orders.
use end_of_line.Shared.{
  ℕ, ◌≤◌, Option, List, [], ◌∷◌, Bool, true, false, not, all, filter, if◌then◌else◌, ltb, nat_eq,
  ◌≡◌, refl, arith, Bool-cases, inl, inr,
}
use end_of_line.State.{Stamp}
use end_of_line.Replies.{OpenBlocker, place_of, insert_later, latest_first}

module _ (place : Option Stamp → ℕ) where
  filter-insert_miss :
      (p : OpenBlocker → Bool) (b : OpenBlocker) (xs : List OpenBlocker)
      → p b ≡ false
      → filter p (insert_later place b xs) ≡ filter p xs
  unfolding insert_later
  filter-insert_miss p b [] h = ground (arith, h)
  filter-insert_miss p b (c ∷ rest) h = ground (arith, h, filter-insert_miss p b rest h)

  -- Without a hit, the inserted one is the only one.
  filter-insert_hit :
      (p : OpenBlocker → Bool) (b : OpenBlocker) (xs : List OpenBlocker)
      → p b ≡ true
      → filter p xs ≡ []
      → filter p (insert_later place b xs) ≡ b ∷ []
  unfolding insert_later
  filter-insert_hit p b [] h none_hit = ground (arith, h)
  filter-insert_hit p b (c ∷ rest) h none_hit =
      ground (arith, h, none_hit, filter-insert_hit p b rest h)

  filter-latest_none :
      (p : OpenBlocker → Bool) (xs : List OpenBlocker)
      → filter p xs ≡ []
      → filter p (latest_first place xs) ≡ []
  unfolding latest_first
  filter-latest_none p [] h = refl
  filter-latest_none p (b ∷ rest) h =
      ground (arith, h, filter-insert_miss p b (latest_first place rest), filter-latest_none p rest)

  pub filter-latest_one :
      (p : OpenBlocker → Bool) (b : OpenBlocker) (xs : List OpenBlocker)
      → filter p xs ≡ b ∷ []
      → filter p (latest_first place xs) ≡ b ∷ []
  unfolding latest_first
  filter-latest_one p b [] h = ground (arith, h)
  filter-latest_one p b (c ∷ rest) h = elim (Bool-cases (p c)) [
    | inl hit ↦
        ground (
          arith,
          h,
          hit,
          filter-latest_none p rest,
          filter-insert_hit p c (latest_first place rest),
        )
    | inr miss ↦ ground (
      arith,
      h,
      miss,
      filter-insert_miss p c (latest_first place rest),
      filter-latest_one p b rest,
    )
  ]

  filter-insert_none :
      (p : OpenBlocker → Bool) (b : OpenBlocker) (xs : List OpenBlocker)
      → filter p (insert_later place b xs) ≡ []
      → (p b ≡ false) × (filter p xs ≡ [])
  unfolding insert_later
  filter-insert_none p b [] h = (ground (arith, h), refl)
  filter-insert_none p b (c ∷ rest) h = elim (Bool-cases (p b)) [
    | inl hit ↦ absurd (ground (arith, h, hit, filter-insert_none p b rest))
    | inr miss ↦ (miss, ground (arith, h, miss, filter-insert_miss p b rest))
  ]

  filter-insert_one :
      (p : OpenBlocker → Bool) (b x : OpenBlocker) (xs : List OpenBlocker)
      → p x ≡ true
      → filter p (insert_later place x xs) ≡ b ∷ []
      → (x ≡ b) × (filter p xs ≡ [])
  unfolding insert_later
  filter-insert_one p b x [] hit h = ground (arith, hit, h)
  filter-insert_one p b x (c ∷ rest) hit h =
      elim (Bool-cases (ltb (place_of place x) (place_of place c))) [
        | inr first ↦ ground (arith, hit, h, first)
        | inl later ↦ elim (Bool-cases (p c)) [
          | inl other ↦ absurd (ground (arith, hit, h, later, other, filter-insert_none p x rest))
          | inr miss ↦ ground (arith, hit, h, later, miss, filter-insert_one p b x rest hit)
        ]
      ]

  filter-latest_empty :
      (p : OpenBlocker → Bool) (xs : List OpenBlocker)
      → filter p (latest_first place xs) ≡ []
      → filter p xs ≡ []
  unfolding latest_first
  filter-latest_empty p [] h = refl
  filter-latest_empty p (b ∷ rest) h =
      let (miss, none_hit) = filter-insert_none p b (latest_first place rest) h in
      ground (arith, miss, filter-latest_empty p rest none_hit)

  pub filter-latest_back :
      (p : OpenBlocker → Bool) (b : OpenBlocker) (xs : List OpenBlocker)
      → filter p (latest_first place xs) ≡ b ∷ []
      → filter p xs ≡ b ∷ []
  unfolding latest_first
  filter-latest_back p b [] h = h
  filter-latest_back p b (c ∷ rest) h = elim (Bool-cases (p c)) [
    | inl hit ↦
        let (same, none_hit) = filter-insert_one p b c (latest_first place rest) hit h in
        ground (arith, hit, same, filter-latest_empty p rest none_hit)
    | inr miss ↦ ground (
      arith,
      h,
      miss,
      filter-insert_miss p c (latest_first place rest) miss,
      filter-latest_back p b rest,
    )
  ]

  -- A list of falling places.
  abbrev pub is_falling : List OpenBlocker → Bool
  is_falling [] = true
  is_falling (b ∷ rest) =
      if all (λ c. not (ltb (place_of place b) (place_of place c))) rest
      then is_falling rest
      else false

  all-insert :
      (q : OpenBlocker → Bool) (b : OpenBlocker) (xs : List OpenBlocker)
      → q b ≡ true
      → all q xs ≡ true
      → all q (insert_later place b xs) ≡ true
  unfolding insert_later
  all-insert q b [] h k = ground (arith, h)
  all-insert q b (c ∷ rest) h k = ground (arith, h, k, all-insert q b rest h)

  abbrev pub is_behind : ℕ → OpenBlocker → Bool
  is_behind n c = not (ltb n (place_of place c))

  all-behind :
      (n m : ℕ) (xs : List OpenBlocker)
      → n ≤ m
      → all (is_behind n) xs ≡ true
      → all (is_behind m) xs ≡ true
  all-behind n m [] h k = refl
  all-behind n m (c ∷ rest) h k = ground (arith, h, k, all-behind n m rest h)

  is_falling-insert :
      (b : OpenBlocker) (xs : List OpenBlocker)
      → is_falling xs ≡ true
      → is_falling (insert_later place b xs) ≡ true
  unfolding insert_later
  is_falling-insert b [] h = ground arith
  is_falling-insert b (c ∷ rest) h = ground (
    arith,
    h,
    is_falling-insert b rest,
    all-insert (is_behind (place_of place c)) b rest,
    all-behind (place_of place c) (place_of place b) rest,
  )

  pub latest_first-is_falling : (xs : List OpenBlocker) → is_falling (latest_first place xs) ≡ true
  unfolding latest_first
  latest_first-is_falling [] = refl
  latest_first-is_falling (b ∷ rest) =
      is_falling-insert b (latest_first place rest) (latest_first-is_falling rest)
