-- ===== src/Worker/Lease.antt =====
-- `claim_jobs` of app/worker/photo_jobs.py: what it claims, and that a lease keeps others away.
use crane_tracker.Base.{
  ℕ, ◌+◌, ◌≤◌, ◌≡◌, refl, ◌∙◌, Bool, true, List, [], ◌∷◌, ◌&&◌, ◌==◌, arith, not, map, any, all,
  select, update, order_by, ascending, all-take, all-order_by,
}
use crane_tracker.Models.{OutboxJob, JobOperation, Db}
use crane_tracker.Errors.{ok}
use crane_tracker.Env.{Env}
use crane_tracker.Exec.{World, now, ◌>>=◌, query, modify, commit}
use crane_tracker.Worker.Jobs.{
  ClaimedJob, claim_of, claim_jobs, claimable_jobs, is_claimable, is_among, claimed, seconds,
}

abbrev pub lease_end : Env → World → ℕ
lease_end env w = now w + seconds env.settings.lock_lease_window

-- A claim that succeeds returns the claimable jobs, and commits them under their lease.
pub claim_jobs_lem :
    (env : Env) (operation : JobOperation) (n : ℕ) (w w' : World) (mine : List ClaimedJob)
    → claim_jobs env operation n w ≡ (ok mine, w')
    → let jobs = claimable_jobs operation n (now w) w.locked w.working in
      (mine ≡ map claim_of jobs)
      × (w'.committed.jobs ≡ update (is_among jobs) (claimed (lease_end env w)) w.working.jobs)
unfolding claim_jobs ◌>>=◌ query modify commit
claim_jobs_lem env operation n w w' mine h = ground arith

-- whether a claim holds the job with this id
abbrev pub holds : List ClaimedJob → ℕ → Bool
holds claims id = any (λ c. c.id == id) claims

holds-map :
    (jobs : List OutboxJob) (j : OutboxJob) → holds (map claim_of jobs) j.id ≡ is_among jobs j
holds-map [] j = refl
holds-map (k ∷ jobs) j = ground (arith, holds-map jobs j)

-- Rows under a lease that runs at least to `time` are not claimable.
leased_rows :
    (operation : JobOperation) (mine rows : List OutboxJob) (time lease : ℕ) (locked : ℕ → Bool)
    → time ≤ lease
    → all
        (λ j. not (is_among mine j))
        (select
          (λ j. is_claimable operation time j && not (locked j.id))
          (update (is_among mine) (claimed lease) rows))
      ≡ true
leased_rows operation mine [] time lease locked h = refl
leased_rows operation mine (j ∷ rows) time lease locked h =
    ground (arith, leased_rows operation mine rows time lease locked h)

leased_batch :
    (operation : JobOperation) (n : ℕ) (mine : List OutboxJob) (time lease : ℕ) (locked : ℕ → Bool)
    (d d' : Db)
    → time ≤ lease
    → d'.jobs ≡ update (is_among mine) (claimed lease) d.jobs
    → all (λ j. not (is_among mine j)) (claimable_jobs operation n time locked d') ≡ true
unfolding claimable_jobs
leased_batch operation n mine time lease locked d d' h e =
    let free : OutboxJob → Bool = λ j. not (is_among mine j) in
    let before : OutboxJob → OutboxJob → Bool = ascending (λ j. j.created_at) in
    let rows : List OutboxJob =
      select (λ j. is_claimable operation time j && not (locked j.id)) d'.jobs in
    all-take free n (order_by before rows)
      (all-order_by before free rows ∙ rw e (leased_rows operation mine d.jobs time lease locked h))

disjoint :
    (mine jobs : List OutboxJob)
    → all (λ j. not (is_among mine j)) jobs ≡ true
    → all (λ c. not (holds (map claim_of mine) c.id)) (map claim_of jobs) ≡ true
disjoint mine [] h = refl
disjoint mine (j ∷ jobs) h = ground (arith, holds-map mine j, disjoint mine jobs)

-- While the lease of one claim runs, a claim on the tables that it has committed, by any worker and
-- of any size, takes none of its jobs.
pub claim_jobs_disjoint :
    (env : Env) (operation : JobOperation) (n m : ℕ) (w w' v v' : World)
    (mine theirs : List ClaimedJob)
    → claim_jobs env operation n w ≡ (ok mine, w')
    → v.working.jobs ≡ w'.committed.jobs
    → now v ≤ lease_end env w
    → claim_jobs env operation m v ≡ (ok theirs, v')
    → all (λ c. not (holds mine c.id)) theirs ≡ true
claim_jobs_disjoint env operation n m w w' v v' mine theirs first same early second =
    let (e, rows) = claim_jobs_lem env operation n w w' mine first in
    let (f, _) = claim_jobs_lem env operation m v v' theirs second in
    rw (e, f)
      (disjoint (claimable_jobs operation n (now w) w.locked w.working)
        (claimable_jobs operation m (now v) v.locked v.working)
        (leased_batch operation m _ (now v) (lease_end env w) v.locked w.working v.working early
          (same ∙ rows)))
