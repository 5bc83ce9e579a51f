-- ===== src/EventLoop.antt =====
-- The event loop of the control plane, from internal/controlplane/eventloop/eventloop.go.
pub mod Dispatcher
pub mod Backoff
pub mod Pools
pub mod Categories
use akoflow.Prelude.{
  ℕ, zero, suc, ◌+◌, ◌-◌, ◌*◌, ◌%◌, ◌^◌, min, String, Bool, true, false, not, List, [], ◌∷◌, Option,
  none, some, ltb, length, ◌==◌, string_eq, ◌||◌, if◌then◌else◌, Result, ok, err,
}
use akoflow.Queue.{Job}
use akoflow.Queue.Store.{Store}
use akoflow.Queue.Repository.{complete, retry, release_expired}
use akoflow.Queue.Admission.{AdmissionPayload}
use akoflow.Queue.Lease.{lease}

pub record Config : Type 0 where
  pub owner : String
  pub categories : List String
  pub concurrency : ℕ
  pub infrastructure_concurrency : ℕ
  pub lease_duration : ℕ
  pub poll_interval : ℕ
  pub retry_base_interval : ℕ

abbrev pub second : ℕ
second = 1_000_000_000

unfoldable pub default_config : String → Config
default_config owner = record {
  owner = owner;
  categories = [];
  concurrency = 8;
  infrastructure_concurrency = 4;
  lease_duration = 30 * second;
  poll_interval = second;
  retry_base_interval = 2 * second;
}

-- New: whether the queue and the dispatcher are there, and the configuration that the loop keeps.
unfoldable pub new : Bool → Bool → Config → Option Config
new has_queue has_dispatcher c =
    if not has_queue || not has_dispatcher
    then none
    else if c.owner == ""
        || (ltb c.concurrency 1
            || (ltb c.infrastructure_concurrency 1
                || (ltb c.lease_duration 1 || ltb c.poll_interval 1)))
    then none
    else some (record c {
      retry_base_interval = if ltb c.retry_base_interval 1 then second else c.retry_base_interval;
    })

abbrev pub infrastructure_category : String
infrastructure_category = "infrastructure"

abbrev pub non_infrastructure_categories : List String
non_infrastructure_categories =
    "environment" ∷ "orchestration" ∷ "execution" ∷ "monitoring" ∷ "transfer" ∷ "maintenance"
    ∷ "planning" ∷ []

unfoldable pub split_configured : List String → List String × List String
split_configured [] = ([], [])
split_configured (c ∷ cs) =
    let (infrastructure, regular) = split_configured cs in
    if c == infrastructure_category
    then (c ∷ infrastructure, regular)
    else (infrastructure, c ∷ regular)

unfoldable pub split_categories : List String → List String × List String
unfolding split_configured
split_categories [] = (infrastructure_category ∷ [], non_infrastructure_categories)
split_categories (c ∷ cs) = split_configured (c ∷ cs)

-- RetryBaseInterval * time.Duration(1<<min(attempts-1, 8)), an int64 as its bit pattern; none where the
-- shift by -1 panics.
unfoldable pub backoff : ℕ → ℕ → Option ℕ
backoff base zero = none
backoff base (suc n) = some (base * 2 ^ min n 8 % 2 ^ 64)

-- now.Add(d) for an int64 of nanoseconds. A time before the zero time is the zero time.
unfoldable pub add_duration : ℕ → ℕ → ℕ
add_duration now d = if ltb d (2 ^ 63) then now + d else now - (2 ^ 64 - d)

-- A panic ends the process before the call of Retry.
abbrev retry_after : Option ℕ → Config → Store → Job → String → ℕ → Store
retry_after none c s j cause now = s
retry_after (some d) c s j cause now = (retry s j.id c.owner cause (add_duration now d)).0

-- The end of `handle`: what the dispatcher returned, `none` for no error, decides between the two
-- calls; their own errors are dropped.
unfoldable pub handled : Config → Store → Job → Option String → ℕ → Store
handled c s j none now = (complete s j.id c.owner now).0
handled c s j (some cause) now =
    retry_after (backoff c.retry_base_interval j.attempts) c s j cause now

-- `len` of `cap` slots are taken. A job that is leased takes one.
module _ (decode : List ℕ → Option AdmissionPayload) where
  unfoldable pub leased_jobs :
      Store → Result akoflow.Queue.Error (Store × List Job) → Store × List Job
  leased_jobs s (ok r) = r
  leased_jobs s (err e) = (s, [])

  unfoldable pub drain : Config → Store → ℕ → ℕ → ℕ → List String → Store × List Job
  unfolding leased_jobs
  drain c s now cap len [] = (s, [])
  drain c s now cap len (g ∷ gs) =
      if ltb len cap
      then leased_jobs s (lease decode s now c.owner (g ∷ gs) (cap - len) c.lease_duration)
      else (s, [])
