-- ===== src/Examples/Queues.antt =====
-- The queue of end_of_line/queue.py on sample entries.
use end_of_line.Shared.{
  ℕ, String, none, List, [], ◌∷◌, true, refl, arith, Result, ok, err, string_eq, String-discrete,
  nat_eq, pos,
}
use end_of_line.State.Slug.{is_slug_char, validate_slug}
use end_of_line.Queue.{slugs, pending, insert_in_txn, add_many}
use end_of_line.Queue.{Entry, Queue}
use end_of_line.Queue.Order.{insert_in_txn-IsValid, IsValid}

abbrev entry : String → Entry
entry slug = record { slug = slug; added_at = none; added_by = none; batch_id = none; extra = [] }

abbrev waiting : Queue
waiting = record {
  rows = (pos 1, entry "one") ∷ (pos 2, entry "two") ∷ [];
  seq = pos 2;
  history = [];
}

abbrev queue_after {ℓ} : {A : Type ℓ} → Result (A × Queue) → Queue
queue_after (ok (a, q)) = q
queue_after (err e) = waiting

abbrev batch : Result (List ℕ × Queue)
batch = add_many (entry "x" ∷ entry "y" ∷ []) true waiting

waiting-IsValid : IsValid waiting
unfolding pending slugs String-discrete
waiting-IsValid =
    (((omega arith, tt), (tt, tt)), (omega arith, (omega arith, tt)), (refl, (refl, tt)))

insert_in_txn-IsValid_example : IsValid (queue_after (insert_in_txn (entry "new") true waiting))
unfolding is_slug_char validate_slug insert_in_txn String-discrete
insert_in_txn-IsValid_example =
    insert_in_txn-IsValid (entry "new") true waiting
      (queue_after (insert_in_txn (entry "new") true waiting)) 1 waiting-IsValid refl
