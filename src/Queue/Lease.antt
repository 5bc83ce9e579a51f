-- ===== src/Queue/Lease.antt =====
-- Repository.Lease: the whole transaction, from the choice of candidates to the rows that it
-- returns. A limit or a duration that is not positive is 0 here.
use akoflow.Prelude.{
  ℕ, ◌+◌, String, Bool, List, [], keep, length, nat_eq, ◌∷◌, ◌++◌, Option, none, some, ltb, ◌==◌,
  string_eq, ◌&&◌, ◌||◌, if◌then◌else◌, Result, ok, err,
}
use akoflow.Queue.{leased, Job, Error, bad_lease_request}
use akoflow.Queue.Store.{Store, is_pending, update_where, find_row, record_lifecycle}
use akoflow.Queue.Admission.{
  Candidate, AdmissionPayload, pending_lease_candidates, select, leased_execution_environments,
}

-- COALESCE(started_at, ?)
abbrev first_start : Option ℕ → ℕ → Option ℕ
first_start none now = some now
first_start (some at) now = some at

unfoldable pub lease_row : String → ℕ → ℕ → Job → Job
lease_row owner now expires j = record j {
  status = leased;
  lease_owner = owner;
  lease_expires_at = some expires;
  attempts = j.attempts + 1;
  started_at = first_start j.started_at now;
}

-- WHERE id = ? AND status = 'pending'
abbrev pub is_waiting : String → Job → Bool
is_waiting id j = j.id == id && is_pending j.status

-- The read back of the row that was changed, and its audit entry.
abbrev pub take_row : Option Job → Store × List Job → Store × List Job
take_row none r = r
take_row (some j) (s, out) = (record_lifecycle s j, out ++ j ∷ [])

-- One round of the loop: a candidate whose update changes no row is passed over.
unfoldable pub lease_one : String → ℕ → ℕ → Candidate → Store × List Job → Store × List Job
lease_one owner now expires c (s, out) =
    let jobs' : List Job = update_where (is_waiting c.id) (lease_row owner now expires) s.jobs in
    let next : Store × List Job = take_row (find_row c.id jobs') (record s { jobs = jobs' }, out) in
    if length (keep (is_waiting c.id) s.jobs) == 1 then next else (s, out)

unfoldable pub lease_all : String → ℕ → ℕ → List Candidate → Store × List Job → Store × List Job
lease_all owner now expires [] r = r
lease_all owner now expires (c ∷ cs) r =
    lease_all owner now expires cs (lease_one owner now expires c r)

module _ (decode : List ℕ → Option AdmissionPayload) where
  unfoldable pub selection : Store → ℕ → List String → ℕ → List Candidate
  selection s now categories limit =
      select decode (pending_lease_candidates now categories s.jobs)
        (leased_execution_environments decode now s.owners s.jobs) s.owners limit

  unfoldable pub lease : Store → ℕ → String → List String → ℕ → ℕ → Result Error (Store × List Job)
  unfolding selection
  lease s now owner categories limit duration =
      if owner == "" || (ltb limit 1 || ltb duration 1)
      then err bad_lease_request
      else ok (lease_all owner now (now + duration) (selection s now categories limit) (s, []))
