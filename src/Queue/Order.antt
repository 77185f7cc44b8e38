-- ===== src/Queue/Order.antt =====
-- The queue: order, uniqueness, and that nothing leaves without a line in the history.
use end_of_line.Shared.{
  ℕ, suc, ◌+◌, List, [], ◌∷◌, ◌++◌, Bool, true, false, ◌≡◌, inl, inr, refl, arith, string_eq,
  Bool-cases, ok, length, contains, contains-append, ℤ, ltb_ℤ, pred_ℤ, suc_ℤ, suc_ℤ-up, <ℤ-suc,
  <ℤ-pred, <ℤ-trans, <ℤ-lift, <ℤ-total, ◌<ℤ◌, ap, sym, subst, if◌then◌else◌,
}
use end_of_line.Queue.{
  Entry, Queue, entries, slugs, pending, insert_front, insert_tail, insert_in_txn, front_id,
  max_seq,
}

entries-append :
    (xs : List (ℤ × Entry)) (i : ℤ) (e : Entry) → entries (xs ++ (i, e) ∷ []) ≡ entries xs ++ e ∷ []
unfolding entries
entries-append [] i e = refl
entries-append ((j, d) ∷ xs) i e = ap (λ l. d ∷ l) (entries-append xs i e)

slugs-append : (xs ys : List Entry) → slugs (xs ++ ys) ≡ slugs xs ++ slugs ys
unfolding slugs
slugs-append [] ys = refl
slugs-append (x ∷ xs) ys = ap (λ l. x.slug ∷ l) (slugs-append xs ys)

length-slugs : (xs : List Entry) → length (slugs xs) ≡ length xs
unfolding slugs
length-slugs [] = refl
length-slugs (x ∷ xs) = ap suc (length-slugs xs)

-- A tail insert goes behind everything that waits, a front insert before it; the position that is
-- returned is where the entry stands, and a slug that waits already is refused.
pub insert_in_txn-ok :
    (entry : Entry) (front : Bool) (q q' : Queue) (n : ℕ)
    → insert_in_txn entry front q ≡ ok (n, q')
    → (contains entry.slug (slugs (pending q)) ≡ false)
      × (front ≡ false → (pending q' ≡ pending q ++ entry ∷ []) × (n ≡ length (pending q) + 1))
      × (front ≡ true → (pending q' ≡ entry ∷ pending q) × (n ≡ 1))
      × (q'.history ≡ q.history)
unfolding insert_in_txn pending insert_front insert_tail entries
insert_in_txn-ok entry true q q' n h = ground arith
insert_in_txn-ok entry false q q' n h =
    ground (arith, entries-append q.rows (suc_ℤ q.seq) entry, length-slugs (entries q.rows))

-- The invariant of the table: ids ascend from the head, none is above the counter, and no slug
-- waits twice.
abbrev pub AllAbove : ℤ → List (ℤ × Entry) → Type 0
AllAbove i [] = Unit
AllAbove i ((j, e) ∷ rest) = (i <ℤ j) × AllAbove i rest

abbrev pub Ascending : List (ℤ × Entry) → Type 0
Ascending [] = Unit
Ascending ((i, e) ∷ rest) = AllAbove i rest × Ascending rest

abbrev pub AllBelow : ℤ → List (ℤ × Entry) → Type 0
AllBelow top [] = Unit
AllBelow top ((j, e) ∷ rest) = (j <ℤ suc_ℤ top) × AllBelow top rest

abbrev pub NoDuplicate : List Entry → Type 0
NoDuplicate [] = Unit
NoDuplicate (e ∷ rest) = (contains e.slug (slugs rest) ≡ false) × NoDuplicate rest

abbrev pub IsValid : Queue → Type 0
IsValid q = Ascending q.rows × AllBelow q.seq q.rows × NoDuplicate (pending q)

below-append :
    (top : ℤ) (e : Entry) (xs : List (ℤ × Entry))
    → AllBelow top xs
    → AllBelow (suc_ℤ top) (xs ++ (suc_ℤ top, e) ∷ [])
below-append top e [] h = (<ℤ-suc (suc_ℤ top), tt)
below-append top e ((j, d) ∷ xs) (a, b) = (suc_ℤ-up j (suc_ℤ top) a, below-append top e xs b)

below_max : (top c : ℤ) (xs : List (ℤ × Entry)) → AllBelow top xs → AllBelow (max_seq top c) xs
below_max top c xs h = elim (Bool-cases (ltb_ℤ top c)) [ inl y ↦ rw y (go xs h y) | inr n ↦ rw n h ]
  where
    go : (ys : List (ℤ × Entry)) → AllBelow top ys → ltb_ℤ top c ≡ true → AllBelow c ys
    go [] k y = tt
    go ((j, d) ∷ ys) (a, b) y = (<ℤ-lift j top c a y, go ys b y)

above-append :
    (i j : ℤ) (e : Entry) (xs : List (ℤ × Entry))
    → AllAbove i xs
    → i <ℤ j
    → AllAbove i (xs ++ (j, e) ∷ [])
above-append i j e [] h k = (k, tt)
above-append i j e ((l, d) ∷ xs) (a, b) k = (a, above-append i j e xs b k)

Ascending-append :
    (top : ℤ) (e : Entry) (xs : List (ℤ × Entry))
    → Ascending xs
    → AllBelow top xs
    → Ascending (xs ++ (suc_ℤ top, e) ∷ [])
Ascending-append top e [] h k = (tt, tt)
Ascending-append top e ((i, d) ∷ xs) (a, b) (c, k) =
    (above-append i (suc_ℤ top) e xs a c, Ascending-append top e xs b k)

above_trans : (i j : ℤ) (xs : List (ℤ × Entry)) → i <ℤ j → AllAbove j xs → AllAbove i xs
above_trans i j [] h k = tt
above_trans i j ((l, d) ∷ xs) h (a, b) = (<ℤ-trans i j l h a, above_trans i j xs h b)

above-front_id : (xs : List (ℤ × Entry)) → Ascending xs → AllAbove (front_id xs) xs
above-front_id [] h = tt
above-front_id ((i, e) ∷ xs) (a, b) = (<ℤ-pred i, above_trans (pred_ℤ i) i xs (<ℤ-pred i) a)

below-max_seq : (top c : ℤ) → c <ℤ suc_ℤ (max_seq top c)
below-max_seq top c = elim (Bool-cases (ltb_ℤ top c)) [
  | inl y ↦ rw y (<ℤ-suc c)
  | inr n ↦ rw n (<ℤ-total top c n)
]

duplicate-append :
    (e : Entry) (xs : List Entry)
    → NoDuplicate xs
    → contains e.slug (slugs xs) ≡ false
    → NoDuplicate (xs ++ e ∷ [])
unfolding slugs
duplicate-append e [] h k = (refl, tt)
duplicate-append e (x ∷ xs) (a, b) k = (
  ground (arith, slugs-append xs (e ∷ []), contains-append x.slug (slugs xs) (e.slug ∷ []), a, k),
  duplicate-append e xs b (ground (arith, k)),
)

fresh_slug :
    (entry : Entry) (front : Bool) (q q' : Queue) (n : ℕ)
    → insert_in_txn entry front q ≡ ok (n, q')
    → (contains entry.slug (slugs (pending q)) ≡ false)
      × (q' ≡ (if front then insert_front entry q else insert_tail entry q))
unfolding insert_in_txn
fresh_slug entry true q q' n h = ground arith
fresh_slug entry false q q' n h = ground arith

insert_front-IsValid :
    (entry : Entry) (q : Queue)
    → contains entry.slug (slugs (pending q)) ≡ false
    → IsValid q
    → IsValid (insert_front entry q)
unfolding pending insert_front entries
insert_front-IsValid entry q fresh (a, b, d) = (
  (above-front_id q.rows a, a),
  (below-max_seq q.seq (front_id q.rows), below_max q.seq (front_id q.rows) q.rows b),
  (fresh, d),
)

insert_tail-IsValid :
    (entry : Entry) (q : Queue)
    → contains entry.slug (slugs (pending q)) ≡ false
    → IsValid q
    → IsValid (insert_tail entry q)
unfolding pending insert_tail
insert_tail-IsValid entry q fresh (a, b, d) = (
  Ascending-append q.seq entry q.rows a b,
  below-append q.seq entry q.rows b,
  subst NoDuplicate (sym (entries-append q.rows (suc_ℤ q.seq) entry))
      (duplicate-append entry (entries q.rows) d fresh),
)

-- An insert keeps the table valid, in front and behind: the ids ascend from head to tail, none is
-- above the counter, and no slug waits twice.
pub insert_in_txn-IsValid :
    (entry : Entry) (front : Bool) (q q' : Queue) (n : ℕ)
    → IsValid q
    → insert_in_txn entry front q ≡ ok (n, q')
    → IsValid q'
insert_in_txn-IsValid entry true q q' n v h =
    let (fresh, same) = fresh_slug entry true q q' n h in
    subst IsValid (sym same) (insert_front-IsValid entry q fresh v)
insert_in_txn-IsValid entry false q q' n v h =
    let (fresh, same) = fresh_slug entry false q q' n h in
    subst IsValid (sym same) (insert_tail-IsValid entry q fresh v)
