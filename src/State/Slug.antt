-- ===== src/State/Slug.antt =====
-- `validate_slug` of end_of_line/state.py, over the character codes of the text.
use Prim.Native.Char.{code}
use end_of_line.Shared.{
  ℕ, zero, suc, ◌+◌, ◌≤◌, String, List, [], ◌∷◌, ◌++◌, Bool, true, false, ◌&&◌, ◌||◌, ◌≡◌, refl,
  ◌⊎◌, inl, inr, arith, leb, ◌==◌, nat_eq, if◌then◌else◌, length, all, Bool-cases, subst,
  append_nil_right, length-append,
}

abbrev pub codes : String → List ℕ
codes String.[] = []
codes (String.◌∷◌ c s) = code c ∷ codes s

abbrev is_alnum : ℕ → Bool
is_alnum c = (leb b'a' c && leb c b'z') || (leb b'0' c && leb c b'9')

unfoldable pub is_slug_char : ℕ → Bool
is_slug_char c = is_alnum c || c == b'_' || c == b'-'

-- `[a-z0-9_-]{0,n}$`. Python's `$` also matches before a newline that ends the text.
unfoldable pub slug_tail : ℕ → List ℕ → Bool
slug_tail n [] = true
slug_tail zero (c ∷ rest) = c == 10 && elim rest [ [] ↦ true | _ ∷ _ ↦ false ]
slug_tail (suc n) (c ∷ rest) =
    let more = slug_tail n rest in
    if is_slug_char c then more else c == 10 && elim rest [ [] ↦ true | _ ∷ _ ↦ false ]

unfoldable pub matches_slug : List ℕ → Bool
unfolding slug_tail
matches_slug [] = false
matches_slug (c ∷ rest) = is_alnum c && slug_tail 63 rest

unfoldable pub validate_slug : String → Bool
unfolding matches_slug
validate_slug slug = matches_slug (codes slug)

slug_tail_lem :
    (n : ℕ) (cs : List ℕ)
    → slug_tail n cs ≡ true
    → (body : List ℕ) × (all is_slug_char body ≡ true)
      × (length body ≤ n)
      × ((cs ≡ body) ⊎ (cs ≡ body ++ 10 ∷ []))
unfolding slug_tail
slug_tail_lem n [] h = ([], refl, omega arith, inl refl)
slug_tail_lem zero (c ∷ []) h = ([], refl, omega arith, inr (ground arith))
slug_tail_lem zero (c ∷ d ∷ rest) h = ground arith
slug_tail_lem (suc n) (c ∷ rest) h = elim (Bool-cases (is_slug_char c)) [
  | inl y ↦
      let (body, ok_body, short, shape) = slug_tail_lem n rest (ground arith) in
      (c ∷ body, ground arith, omega arith, ground arith)
  | inr m ↦ ([], refl, omega arith, inr (ends_line c rest (ground arith)))
]
  where
    ends_line :
        (c : ℕ) (rest : List ℕ)
        → (c == 10 && elim rest [ [] ↦ true | _ ∷ _ ↦ false ]) ≡ true
        → c ∷ rest ≡ 10 ∷ []
    ends_line c [] e = ground arith
    ends_line c (d ∷ rest) e = ground arith

-- A character that a validated name can hold: of the slug alphabet, or the newline that ends it.
abbrev pub IsSafe : ℕ → Type 0
IsSafe c = (is_slug_char c ≡ true) ⊎ (c ≡ 10)

abbrev pub AllSafe : List ℕ → Type 0
AllSafe [] = Unit
AllSafe (c ∷ cs) = IsSafe c × AllSafe cs

AllSafe-append :
    (body : List ℕ) (cs : List ℕ) → all is_slug_char body ≡ true → AllSafe cs → AllSafe (body ++ cs)
AllSafe-append [] cs h k = k
AllSafe-append (c ∷ body) cs h k = (inl (ground arith), AllSafe-append body cs (ground arith) k)

AllSafe-tail : (n : ℕ) (cs : List ℕ) → slug_tail n cs ≡ true → AllSafe cs × (length cs ≤ n + 1)
AllSafe-tail n cs h =
    let (body, letters, short, shape) = slug_tail_lem n cs h in
    elim shape [
      | inl e ↦
          rw e
            (subst AllSafe (append_nil_right body) (AllSafe-append body [] letters tt), omega arith)
      | inr e ↦ rw e (
        AllSafe-append body (10 ∷ []) letters (inr refl, tt),
        omega (arith, length-append body (10 ∷ [])),
      )
    ]

-- The conclusion of `validate_slug_safe`.
abbrev pub IsSafeName : List ℕ → Type 0
IsSafeName cs =
    (c : ℕ) × (rest : List ℕ) × (cs ≡ c ∷ rest)
    × (is_slug_char c ≡ true)
    × AllSafe rest
    × (length cs ≤ 65)

-- A validated name is a safe path component: it begins with a letter or a digit, holds no
-- character outside the slug alphabet but a newline at its end, and has at most 65 characters.
pub validate_slug_safe : (cs : List ℕ) → matches_slug cs ≡ true → IsSafeName cs
unfolding matches_slug is_slug_char
validate_slug_safe [] h = ground arith
validate_slug_safe (c ∷ rest) h =
    let (safe, short) = AllSafe-tail 63 rest (ground arith) in
    (c, rest, refl, ground arith, safe, omega arith)

slug_tail-newline :
    (n : ℕ) (cs : List ℕ)
    → all is_slug_char cs ≡ true
    → slug_tail n cs ≡ true
    → slug_tail n (cs ++ 10 ∷ []) ≡ true
unfolding slug_tail is_slug_char
slug_tail-newline zero [] h t = ground arith
slug_tail-newline (suc n) [] h t = ground arith
slug_tail-newline zero (c ∷ cs) h t = ground arith
slug_tail-newline (suc n) (c ∷ cs) h t = ground (arith, slug_tail-newline n cs)

-- Every valid name stays valid with a newline behind it, which the alphabet does not hold.
pub validate_slug_newline :
    (cs : List ℕ)
    → all is_slug_char cs ≡ true
    → matches_slug cs ≡ true
    → (matches_slug (cs ++ 10 ∷ []) ≡ true) × (is_slug_char 10 ≡ false)
unfolding matches_slug is_slug_char
validate_slug_newline [] h t = ground arith
validate_slug_newline (c ∷ cs) h t = (ground (arith, slug_tail-newline 63 cs), ground arith)
