-- ===== src/Queue/Batch.antt =====
-- A batch of entries: its order and its validity.
use end_of_line.Shared.{
  ℕ, List, [], ◌∷◌, ◌++◌, reverse, Bool, true, false, ◌≡◌, inl, inr, refl, arith, string_eq,
  Result-cases, ok, ap, ◌∙◌, sym, append_assoc_lem, append_nil_right, subst, if◌then◌else◌,
}
use mathlib.Core.List.{reverse-cons, reverse-reverse}
use end_of_line.Queue.{Entry, Queue, pending, insert_in_txn, insert_all, add_many}
use end_of_line.Queue.Order.{insert_in_txn-ok, IsValid, insert_in_txn-IsValid}

insert_all-front :
    (batch : List Entry) (q q' : Queue) (ns : List ℕ)
    → insert_all batch true q ≡ ok (ns, q')
    → pending q' ≡ reverse batch ++ pending q
unfolding insert_all
insert_all-front [] q q' ns h = ground arith
insert_all-front (e ∷ batch) q q' ns h = elim (Result-cases (insert_in_txn e true q)) [
  | inr (x, y) ↦ absurd (ground (arith, y, h))
  | inl ((n, placed), y) ↦ elim (Result-cases (insert_all batch true placed)) [
    | inr (x, z) ↦ absurd (ground (arith, y, z, h))
    | inl ((later, done), z) ↦
        let front = ((insert_in_txn-ok e true q placed n y).2 refl).0 in
        ap pending (ground (arith, y, z, h))
        ∙ insert_all-front batch placed done later z
        ∙ ap (λ x. reverse batch ++ x) front
        ∙ sym (append_assoc_lem (reverse batch) (e ∷ []) (pending q))
        ∙ ap (λ x. x ++ pending q) (sym (reverse-cons e batch))
  ]
]

insert_all-tail :
    (batch : List Entry) (q q' : Queue) (ns : List ℕ)
    → insert_all batch false q ≡ ok (ns, q')
    → pending q' ≡ pending q ++ batch
unfolding insert_all
insert_all-tail [] q q' ns h = ap pending (ground (arith, h)) ∙ sym (append_nil_right (pending q))
insert_all-tail (e ∷ batch) q q' ns h = elim (Result-cases (insert_in_txn e false q)) [
  | inr (x, y) ↦ absurd (ground (arith, y, h))
  | inl ((n, placed), y) ↦ elim (Result-cases (insert_all batch false placed)) [
    | inr (x, z) ↦ absurd (ground (arith, y, z, h))
    | inl ((later, done), z) ↦
        let tail = ((insert_in_txn-ok e false q placed n y).1 refl).0 in
        ap pending (ground (arith, y, z, h))
        ∙ insert_all-tail batch placed done later z
        ∙ ap (λ x. x ++ batch) tail
        ∙ append_assoc_lem (pending q) (e ∷ []) batch
  ]
]

insert_all-IsValid :
    (batch : List Entry) (front : Bool) (q q' : Queue) (ns : List ℕ)
    → IsValid q
    → insert_all batch front q ≡ ok (ns, q')
    → IsValid q'
unfolding insert_all
insert_all-IsValid [] front q q' ns v h = subst IsValid (ground (arith, h)) v
insert_all-IsValid (e ∷ batch) front q q' ns v h = elim (Result-cases (insert_in_txn e front q)) [
  | inr (x, y) ↦ absurd (ground (arith, y, h))
  | inl ((n, placed), y) ↦ elim (Result-cases (insert_all batch front placed)) [
    | inr (x, z) ↦ absurd (ground (arith, y, z, h))
    | inl ((later, done), z) ↦ subst IsValid (ground (arith, y, z, h)) (
        insert_all-IsValid batch front placed done later
          (insert_in_txn-IsValid e front q placed n v y) z)
  ]
]

add_many-same :
    (batch : List Entry) (q q' done : Queue) (ns later : List ℕ)
    → insert_all (reverse batch) true q ≡ ok (later, done)
    → add_many batch true q ≡ ok (ns, q')
    → q' ≡ done
unfolding add_many
add_many-same batch q q' done ns later y h = ground (arith, y, h)

-- A batch that is added to a valid table keeps its order, in front of what waits or behind it, and
-- the table stays valid.
pub add_many_lem :
    (batch : List Entry) (front : Bool) (q q' : Queue) (ns : List ℕ)
    → IsValid q
    → add_many batch front q ≡ ok (ns, q')
    → (pending q' ≡ (if front then batch ++ pending q else pending q ++ batch)) × IsValid q'
unfolding add_many
add_many_lem batch false q q' ns v h =
    (insert_all-tail batch q q' ns h, insert_all-IsValid batch false q q' ns v h)
add_many_lem batch true q q' ns v h = elim (Result-cases (insert_all (reverse batch) true q)) [
  | inr (x, y) ↦ absurd (ground (arith, y, h))
  | inl ((later, done), y) ↦
      let same = add_many-same batch q q' done ns later y h in
      (
        ap pending same
            ∙ insert_all-front (reverse batch) q done later y
            ∙ ap (λ x. x ++ pending q) (reverse-reverse batch),
        subst IsValid (sym same) (insert_all-IsValid (reverse batch) true q done later v y),
      )
]
