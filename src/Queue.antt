-- ===== src/Queue.antt =====
-- end_of_line/queue.py: the plans that wait, ordered by row id, and the history of those that left.
pub mod Order
pub mod Batch
pub mod Leaving
use end_of_line.Shared.{
  ℕ, zero, suc, ◌+◌, String, Option, none, some, List, [], ◌∷◌, ◌++◌, reverse, Bool, true, false,
  if◌then◌else◌, ◌==◌, string_eq, Result, ok, err, ◌>>=◌, ◌>>◌, invalid_slug, already_queued,
  length, ℤ, pos, negsuc, ltb_ℤ, pred_ℤ, suc_ℤ, contains,
}
use end_of_line.State.{Stamp, utcnow}
use end_of_line.State.Slug.{validate_slug}

pub record Entry : Type 0 where
  pub slug : String
  pub added_at : Option Stamp
  pub added_by : Option String
  pub batch_id : Option String
  pub extra : List (String × String)

pub data Outcome : Type 0 where
  popped absorbed abandoned removed : Outcome

pub record Left : Type 0 where
  pub entry : Entry
  pub ended_at : Stamp
  pub outcome : Outcome

-- `rows` is the queue table in the order of its ids; `seq` is its AUTOINCREMENT counter, which is
-- the largest id that was ever in use (0 before the first).
pub record Queue : Type 0 where
  pub rows : List (ℤ × Entry)
  pub seq : ℤ
  pub history : List Left

unfoldable pub entries : List (ℤ × Entry) → List Entry
entries [] = []
entries ((i, e) ∷ rest) = e ∷ entries rest

unfoldable pub slugs : List Entry → List String
slugs [] = []
slugs (e ∷ rest) = e.slug ∷ slugs rest

-- `pending_in_txn`: head first.
unfoldable pub pending : Queue → List Entry
unfolding entries
pending q = entries q.rows

-- `existing.index(slug)`
unfoldable pub index_of : String → List String → ℕ
index_of slug [] = 0
index_of slug (s ∷ rest) = let later = index_of slug rest in if s == slug then 0 else suc later

abbrev pub front_id : List (ℤ × Entry) → ℤ
front_id [] = pos 1
front_id ((low, e) ∷ rest) = pred_ℤ low

abbrev pub max_seq : ℤ → ℤ → ℤ
max_seq a b = if ltb_ℤ a b then b else a

unfoldable pub insert_front : Entry → Queue → Queue
insert_front entry q =
    let id = front_id q.rows in record q { rows = (id, entry) ∷ q.rows; seq = max_seq q.seq id }

unfoldable pub insert_tail : Entry → Queue → Queue
insert_tail entry q =
    let id = suc_ℤ q.seq in record q { rows = q.rows ++ (id, entry) ∷ []; seq = id }

-- The duplicate check and the insert are one step; returns the 1-based position.
unfoldable pub insert_in_txn : Entry → Bool → Queue → Result (ℕ × Queue)
unfolding pending slugs index_of insert_front insert_tail
insert_in_txn entry front q =
    let existing = slugs (pending q) in
    if validate_slug entry.slug
    then (if contains entry.slug existing
        then err (already_queued (index_of entry.slug existing + 1))
        else if front
        then ok (1, insert_front entry q)
        else ok (length existing + 1, insert_tail entry q))
    else err invalid_slug

abbrev leave : ℕ → Outcome → Entry → Queue → Queue
leave now outcome entry q = record q {
  history = q.history ++ record { entry = entry; ended_at = utcnow now; outcome = outcome } ∷ [];
}

-- `{**entry, **extra}` on the fields that have no column of their own.
abbrev with_extra : List (String × String) → Entry → Entry
with_extra extra entry = record entry { extra = entry.extra ++ extra }

-- Moves the head to history if it is still `slug`; `false` says that it moved.
unfoldable pub pop_head_in_txn :
    ℕ → String → Outcome → List (String × String) → Queue → Bool × Queue
pop_head_in_txn now slug outcome extra q = elim q.rows [
  | [] ↦ (false, q)
  | row ∷ rest ↦
      if row.1.slug == slug
      then (true, leave now outcome (with_extra extra row.1) (record q { rows = rest }))
      else (false, q)
]

unfoldable pub find_slug : String → List (ℤ × Entry) → Option Entry
find_slug slug [] = none
find_slug slug ((i, e) ∷ rest) =
    let later = find_slug slug rest in if e.slug == slug then some e else later

-- The row that was found goes; rows of other ids stay.
unfoldable pub delete_slug : String → List (ℤ × Entry) → List (ℤ × Entry)
delete_slug slug [] = []
delete_slug slug ((i, e) ∷ rest) =
    let later = delete_slug slug rest in if e.slug == slug then rest else (i, e) ∷ later

unfoldable pub remove_in_txn : ℕ → String → Queue → Bool × Queue
unfolding find_slug delete_slug
remove_in_txn now slug q = elim (find_slug slug q.rows) [
  | none ↦ (false, q)
  | some entry ↦ (true, leave now removed entry (record q { rows = delete_slug slug q.rows }))
]

unfoldable pub insert_all : List Entry → Bool → Queue → Result (List ℕ × Queue)
insert_all [] front q = ok ([], q)
insert_all (e ∷ rest) front q = do
  placed ← insert_in_txn e front q
  later ← insert_all rest front placed.1
  ok (placed.0 ∷ later.0, later.1)

abbrev pub count_up : ℕ → List Entry → List ℕ
count_up n [] = []
count_up n (e ∷ rest) = suc n ∷ count_up (suc n) rest

-- One transaction for the batch; a front batch goes in back to front, and keeps its order.
unfoldable pub add_many : List Entry → Bool → Queue → Result (List ℕ × Queue)
unfolding insert_all
add_many batch false q = insert_all batch false q
add_many batch true q = do done ← insert_all (reverse batch) true q; ok (count_up 0 batch, done.1)
