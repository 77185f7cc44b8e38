-- ===== src/Supervisor/Tree/Walk.antt =====
-- The walk over the process tree: it ends, and it lists no process twice.
use end_of_line.Shared.{
  ℕ, zero, suc, ◌+◌, ◌≤◌, List, [], ◌∷◌, ◌++◌, true, false, ◌≡◌, refl, arith, ap, ◌∙◌, sym,
  Bool-cases, inl, inr, contains, contains-append, length, length-append, ◌==◌, nat_eq,
  if◌then◌else◌, ==-refl, subst,
}
use end_of_line.Supervisor.Tree.{Proc, pids, children, unseen, walk, walk_worker_tree}

-- How many processes of the snapshot are not seen yet.
abbrev unseen_count : List ℕ → List Proc → ℕ
unseen_count seen [] = 0
unseen_count seen (p ∷ ps) =
    if contains p.pid seen then unseen_count seen ps else suc (unseen_count seen ps)

length-pids : (ps : List Proc) → length (pids ps) ≡ length ps
length-pids [] = refl
length-pids (p ∷ ps) = ap suc (length-pids ps)

pids-append : (xs ys : List Proc) → pids (xs ++ ys) ≡ pids xs ++ pids ys
pids-append [] ys = refl
pids-append (x ∷ xs) ys = ap (λ l. x.pid ∷ l) (pids-append xs ys)

count_le : (seen : List ℕ) (ps : List Proc) → unseen_count seen ps ≤ length ps
count_le seen [] = omega arith
count_le seen (p ∷ ps) = ground (arith, count_le seen ps)

count_more :
    (x : ℕ) (seen : List ℕ) (ps : List Proc) → unseen_count (x ∷ seen) ps ≤ unseen_count seen ps
count_more x seen [] = omega arith
count_more x seen (p ∷ ps) = ground (arith, count_more x seen ps)

count_same :
    (s t : List ℕ) (ps : List Proc)
    → ((x : ℕ) → contains x s ≡ contains x t)
    → unseen_count s ps ≡ unseen_count t ps
count_same s t [] h = refl
count_same s t (p ∷ ps) h = rw (h p.pid) (rw (count_same s t ps h) refl)

middle : (x n : ℕ) (s t : List ℕ) → contains x (s ++ n ∷ t) ≡ contains x (n ∷ s ++ t)
middle x n s t = ground (arith, contains-append x s (n ∷ t), contains-append x s t)

-- What a round finds is no longer unseen after it.
unseen_count-unseen :
    (c : ℕ) (seen : List ℕ) (ps : List Proc)
    → unseen_count (pids (unseen seen (children c ps)) ++ seen) ps
        + length (unseen seen (children c ps))
      ≤ unseen_count seen ps
unfolding unseen
unseen_count-unseen c seen [] = omega arith
unseen_count-unseen c seen (p ∷ ps) = elim (Bool-cases (p.parent_pid == c)) [
  | inr other ↦ ground (
    arith,
    other,
    unseen_count-unseen c seen ps,
    contains-append p.pid (pids (unseen seen (children c ps))) seen,
  )
  | inl child ↦ elim (Bool-cases (contains p.pid seen)) [
    | inl old ↦ ground (
      arith,
      child,
      old,
      unseen_count-unseen c seen ps,
      contains-append p.pid (pids (unseen seen (children c ps))) seen,
    )
    | inr new ↦
        let found = pids (unseen (p.pid ∷ seen) (children c ps)) in
        ground (
          arith,
          child,
          new,
          unseen_count-unseen c (p.pid ∷ seen) ps,
          count_more p.pid seen ps,
          ==-refl p.pid,
          count_same (found ++ p.pid ∷ seen) (p.pid ∷ found ++ seen) ps
              (λ x. middle x p.pid found seen),
        )
  ]
]

walk_idle : (fuel : ℕ) (procs : List Proc) (seen : List ℕ) → walk fuel procs [] seen ≡ []
unfolding walk
walk_idle zero procs seen = refl
walk_idle (suc fuel) procs seen = refl

walk_more :
    (more fuel : ℕ) (procs : List Proc) (queue seen : List ℕ)
    → length queue + unseen_count seen procs ≤ fuel
    → fuel ≤ more
    → walk more procs queue seen ≡ walk fuel procs queue seen
unfolding walk
walk_more more fuel procs [] seen h k = walk_idle more procs seen ∙ sym (walk_idle fuel procs seen)
walk_more more zero procs (c ∷ queue) seen h k = absurd (omega (arith, h))
walk_more zero (suc fuel) procs (c ∷ queue) seen h k = absurd (omega (arith, k))
walk_more (suc more) (suc fuel) procs (c ∷ queue) seen h k =
    let found = unseen seen (children c procs) in
    ap (λ l. found ++ l)
      (walk_more more fuel procs (queue ++ pids found) (pids found ++ seen)
        (omega (
          arith,
          h,
          unseen_count-unseen c seen procs,
          length-append queue (pids found),
          length-pids found,
        ))
        (omega (arith, k)))

-- The walk ends by itself: with one round more than there are processes, or any number of rounds
-- above, it lists the same processes.
pub walk_worker_tree-enough :
    (more root : ℕ) (procs : List Proc)
    → suc (length procs) ≤ more
    → walk more procs (root ∷ []) (root ∷ []) ≡ walk_worker_tree root procs
unfolding walk_worker_tree
walk_worker_tree-enough more root procs k =
    walk_more more (suc (length procs)) procs (root ∷ []) (root ∷ [])
      (omega (arith, count_le (root ∷ []) procs)) k

fresh_unseen :
    (x : ℕ) (seen : List ℕ) (ps : List Proc)
    → contains x seen ≡ true
    → contains x (pids (unseen seen ps)) ≡ false
unfolding unseen
fresh_unseen x seen [] h = refl
fresh_unseen x seen (p ∷ ps) h =
    ground
      (arith, h, fresh_unseen x seen ps h, fresh_unseen x (p.pid ∷ seen) ps (ground (arith, h)))

fresh_walk :
    (x fuel : ℕ) (procs : List Proc) (queue seen : List ℕ)
    → contains x seen ≡ true
    → contains x (pids (walk fuel procs queue seen)) ≡ false
unfolding walk
fresh_walk x zero procs queue seen h = refl
fresh_walk x (suc fuel) procs [] seen h = refl
fresh_walk x (suc fuel) procs (c ∷ queue) seen h =
    let found = unseen seen (children c procs) in
    let rest = walk fuel procs (queue ++ pids found) (pids found ++ seen) in
    ground (
      arith,
      h,
      pids-append found rest,
      contains-append x (pids found) (pids rest),
      fresh_unseen x seen (children c procs) h,
      fresh_walk x fuel procs (queue ++ pids found) (pids found ++ seen)
          (ground (arith, h, contains-append x (pids found) seen)),
    )

abbrev pub AllDistinct : List ℕ → Type 0
AllDistinct [] = Unit
AllDistinct (x ∷ xs) = (contains x xs ≡ false) × AllDistinct xs

distinct-append :
    (xs ys : List ℕ)
    → AllDistinct xs
    → AllDistinct ys
    → ((x : ℕ) → contains x xs ≡ true → contains x ys ≡ false)
    → AllDistinct (xs ++ ys)
distinct-append [] ys h k apart = k
distinct-append (x ∷ xs) ys (a, b) k apart = (
  ground (arith, a, contains-append x xs ys, apart x (ground arith)),
  distinct-append xs ys b k (λ y m. apart y (ground (arith, m))),
)

distinct_unseen : (seen : List ℕ) (ps : List Proc) → AllDistinct (pids (unseen seen ps))
unfolding unseen
distinct_unseen seen [] = tt
distinct_unseen seen (p ∷ ps) = elim (Bool-cases (contains p.pid seen)) [
  | inl y ↦ rw y (distinct_unseen seen ps)
  | inr n ↦
      rw n (fresh_unseen p.pid (p.pid ∷ seen) ps (ground arith), distinct_unseen (p.pid ∷ seen) ps)
]

distinct_walk :
    (fuel : ℕ) (procs : List Proc) (queue seen : List ℕ)
    → AllDistinct (pids (walk fuel procs queue seen))
unfolding walk
distinct_walk zero procs queue seen = tt
distinct_walk (suc fuel) procs [] seen = tt
distinct_walk (suc fuel) procs (c ∷ queue) seen =
    let found = unseen seen (children c procs) in
    let rest = walk fuel procs (queue ++ pids found) (pids found ++ seen) in
    subst AllDistinct (sym (pids-append found rest)) (
      distinct-append (pids found) (pids rest) (distinct_unseen seen (children c procs))
        (distinct_walk fuel procs (queue ++ pids found) (pids found ++ seen))
        (λ x m.
          fresh_walk x fuel procs (queue ++ pids found) (pids found ++ seen)
            (ground (arith, m, contains-append x (pids found) seen))))

-- No process is listed twice, and the root is not among its own descendants, whatever the parent
-- pids say: a cycle in the snapshot does no harm.
pub walk_worker_tree-distinct :
    (root : ℕ) (procs : List Proc) → AllDistinct (root ∷ pids (walk_worker_tree root procs))
unfolding walk_worker_tree
walk_worker_tree-distinct root procs = (
  fresh_walk root (suc (length procs)) procs (root ∷ []) (root ∷ []) (ground arith),
  distinct_walk (suc (length procs)) procs (root ∷ []) (root ∷ []),
)
