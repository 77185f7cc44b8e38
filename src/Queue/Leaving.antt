-- ===== src/Queue/Leaving.antt =====
-- The head of the queue: who may take it, and where it goes.
use end_of_line.Shared.{
  ℕ, suc, String, List, [], ◌∷◌, true, false, ◌≡◌, ◌⊎◌, inl, inr, refl, arith, string_eq, length,
  contains, ℤ, ap, ◌∙◌, sym, subst, length-append,
}
use end_of_line.State.{utcnow}
use end_of_line.Queue.{
  Entry, Queue, entries, slugs, pending, pop_head_in_txn, Outcome, leave, with_extra,
}
use end_of_line.Queue.Order.{Ascending, AllBelow, NoDuplicate, IsValid}

rows_cases :
    (rows : List (ℤ × Entry))
    → (rows ≡ []) ⊎ ((i : ℤ) × ((e : Entry) × ((rest : List (ℤ × Entry)) × (rows ≡ (i, e) ∷ rest))))
rows_cases [] = inl refl
rows_cases ((i, e) ∷ rest) = inr (i, (e, (rest, refl)))

-- Where the head has the slug, popping it leaves the rest of the rows.
pop-head :
    (now : ℕ) (slug : String) (outcome : Outcome) (extra : List (String × String)) (q : Queue)
    → (pop_head_in_txn now slug outcome extra q).0 ≡ true
    → (i : ℤ) × ((e : Entry) × ((rest : List (ℤ × Entry)) × ((q.rows ≡ (i, e) ∷ rest)
            × (e.slug ≡ slug)
            × ((pop_head_in_txn now slug outcome extra q).1
                ≡ leave now outcome (with_extra extra e) (record q { rows = rest })))))
unfolding pop_head_in_txn
pop-head now slug outcome extra q h = elim (rows_cases q.rows) [
  | inl n ↦ absurd (ground arith)
  | inr (i, (e, (rest, y))) ↦ (i, (e, (rest, ground (arith, h, y))))
]

tail_valid :
    (i : ℤ) (e : Entry) (rest : List (ℤ × Entry)) (top : ℤ) (rows : List (ℤ × Entry))
    → rows ≡ (i, e) ∷ rest
    → Ascending rows × AllBelow top rows × NoDuplicate (entries rows)
    → (Ascending rest × AllBelow top rest × NoDuplicate (entries rest))
      × (contains e.slug (slugs (entries rest)) ≡ false)
unfolding entries
tail_valid i e rest top rows h v =
    let (a, b, d) = subst (λ xs. Ascending xs × AllBelow top xs × NoDuplicate (entries xs)) h v in
    ((a.1, b.1, d.1), d.0)

pop-absent :
    (now : ℕ) (slug : String) (outcome : Outcome) (extra : List (String × String)) (q : Queue)
    → contains slug (slugs (pending q)) ≡ false
    → pop_head_in_txn now slug outcome extra q ≡ (false, q)
unfolding pop_head_in_txn pending entries slugs
pop-absent now slug outcome extra q h = elim (rows_cases q.rows) [
  | inl n ↦ ground arith
  | inr (i, (e, (rest, y))) ↦ ground (arith, h, y)
]

-- The conclusion of `pop_head_in_txn_lem`.
abbrev pub IsPopped : ℕ → ℕ → String → Outcome → List (String × String) → Queue → Type 0
IsPopped now later slug outcome extra q =
    (entry : Entry) × ((pending q ≡ entry ∷ pending (pop_head_in_txn now slug outcome extra q).1)
      × (entry.slug ≡ slug)
      × IsValid (pop_head_in_txn now slug outcome extra q).1
      × (length (pop_head_in_txn now slug outcome extra q).1.history ≡ suc (length q.history))
      × (pop_head_in_txn later slug outcome extra (pop_head_in_txn now slug outcome extra q).1
          ≡ (false, (pop_head_in_txn now slug outcome extra q).1)))

-- Where a pop of a valid table succeeds, the head had the slug that the caller named; the others
-- keep their places, the table stays valid and the history grows by one. A second pop of the same
-- slug is told that the head moved, and changes nothing.
pub pop_head_in_txn_lem :
    (now later : ℕ) (slug : String) (outcome : Outcome) (extra : List (String × String)) (q : Queue)
    → IsValid q
    → (pop_head_in_txn now slug outcome extra q).0 ≡ true
    → IsPopped now later slug outcome extra q
unfolding pop_head_in_txn pending entries
pop_head_in_txn_lem now later slug outcome extra q v h =
    let (i, (e, (rest, (rows, same, gone)))) = pop-head now slug outcome extra q h in
    let left = leave now outcome (with_extra extra e) (record q { rows = rest }) in
    let (valid, absent) = tail_valid i e rest q.seq q.rows rows v in
    (
      e,
      (
        ap entries rows ∙ ap (λ x. e ∷ pending x) (sym gone),
        same,
        subst IsValid (sym gone) valid,
        ground (
          arith,
          ap (λ x. length x.history) gone,
          length-append q.history (
              record { entry = with_extra extra e; ended_at = utcnow now; outcome = outcome } ∷ []),
        ),
        subst (λ x. pop_head_in_txn later slug outcome extra x ≡ (false, x)) (sym gone)
            (pop-absent later slug outcome extra left
              (ap (λ t. contains t (slugs (entries rest))) (sym same) ∙ absent)),
      ),
    )
