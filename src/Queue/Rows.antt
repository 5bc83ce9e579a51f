-- ===== src/Queue/Rows.antt =====
-- Laws of the SQL on the rows of queue_jobs: what an UPDATE does to a row that is looked up, and
-- what holds of every row.
use mathlib.Core.Path.{subst}
use akoflow.Queue.Lease.{take_row}
use akoflow.Prelude.{
  Option, String, Bool, true, false, List, [], ◌∷◌, ◌++◌, none, some, All, ◌≡◌, refl, arith, inl,
  inr, Bool-cases, if◌then◌else◌, ◌==◌, string_eq, str_iff,
}
use akoflow.Queue.{Job}
use akoflow.Queue.Store.{Store, record_lifecycle, update_where, find_row}

-- A statement that leaves ids alone changes the row that is found exactly when it applies to it.
pub find_row-update_where :
    (p : Job → Bool) (f : Job → Job)
    → ((j : Job) → (f j).id ≡ j.id)
    → (id : String) (js : List Job) (j : Job) → find_row id js ≡ some j
    → find_row id (update_where p f js) ≡ some (if p j then f j else j)
unfolding find_row update_where
find_row-update_where p f same id [] j h = cc
find_row-update_where p f same id (k ∷ ks) j h =
    ground (arith, same k, find_row-update_where p f same id ks j)

pub find_row-none-update_where :
    (p : Job → Bool) (f : Job → Job)
    → ((j : Job) → (f j).id ≡ j.id)
    → (id : String) (js : List Job) → find_row id js ≡ none
    → find_row id (update_where p f js) ≡ none
unfolding find_row update_where
find_row-none-update_where p f same id [] h = refl
find_row-none-update_where p f same id (k ∷ ks) h =
    ground (arith, same k, find_row-none-update_where p f same id ks)

-- A row that is found stays found when others are appended.
pub find_row-append :
    (id : String) (js ks : List Job) (j : Job)
    → find_row id js ≡ some j
    → find_row id (js ++ ks) ≡ some j
unfolding find_row
find_row-append id [] ks j h = cc
find_row-append id (x ∷ js) ks j h = ground (arith, find_row-append id js ks j)

pub find_row-id : (id : String) (js : List Job) (j : Job) → find_row id js ≡ some j → j.id ≡ id
unfolding find_row
find_row-id id [] j h = cc
find_row-id id (x ∷ js) j h = ground (arith, str_iff x.id id, find_row-id id js j)

-- The row that is found is the first, if that has the id, and otherwise one of the rest.
pub find_row-head :
    (id : String) (k : Job) (ks : List Job) (j : Job)
    → (k.id == id) ≡ true
    → find_row id (k ∷ ks) ≡ some j
    → k ≡ j
unfolding find_row
find_row-head id k ks j t e = ground arith

pub find_row-tail :
    (id : String) (k : Job) (ks : List Job) (j : Job)
    → (k.id == id) ≡ false
    → find_row id (k ∷ ks) ≡ some j
    → find_row id ks ≡ some j
unfolding find_row
find_row-tail id k ks j t e = ground arith

module _ {ℓ} (P : Job → Type ℓ) where
  pub All-update_where :
      (p : Job → Bool) (f : Job → Job)
      → ((j : Job) → P j → p j ≡ true → P (f j))
      → (js : List Job) → All P js
      → All P (update_where p f js)
  unfolding update_where
  All-update_where p f step [] h = h
  All-update_where p f step (j ∷ js) h = elim (Bool-cases (p j)) [
    | inl e ↦ rw e (step j h.0 e, All-update_where p f step js h.1)
    | inr e ↦ rw e (h.0, All-update_where p f step js h.1)
  ]

  pub All-find_row :
      (id : String) (js : List Job) (j : Job) → All P js → find_row id js ≡ some j → P j
  unfolding find_row
  All-find_row id [] j h e = cc
  All-find_row id (k ∷ ks) j h e = elim (Bool-cases (k.id == id)) [
    | inl t ↦ subst P (find_row-head id k ks j t e) h.0
    | inr t ↦ All-find_row id ks j h.1 (find_row-tail id k ks j t e)
  ]

pub take_row-jobs : (o : Option Job) (r : Store × List Job) → (take_row o r).0.jobs ≡ r.0.jobs
unfolding record_lifecycle
take_row-jobs none r = refl
take_row-jobs (some j) (s, out) = refl
