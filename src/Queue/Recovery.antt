-- ===== src/Queue/Recovery.antt =====
-- What the recovery statements at startup promise.
use sport_crawl.Prelude.{
  ℕ, ◌+◌, String, Bool, true, false, [], ◌∷◌, ◌≡◌, ◌⊎◌, refl, arith, inl, inr, Bool-cases,
  if◌then◌else◌, ◌&&◌, str_eq, All, select, not,
}
use sport_crawl.Queue.Table.{
  pending, is_status, ScrapeQueue, Table, ok, Session, count_where, update_where,
}
use sport_crawl.Queue.Repository.{
  is_running, is_stale, released, recover_all_stale, recover_stale, locked_before,
}

-- The waiting jobs of a job_type.
abbrev pub is_waiting : String → ScrapeQueue → Bool
is_waiting job_type r = str_eq r.job_type job_type && is_status r.status pending

recovered-counts :
    (job_type : String) (t : Table)
    → let u = update_where (is_running job_type) released t in
      (count_where (is_running job_type) u ≡ 0)
      × (count_where (is_waiting job_type) u
          ≡ count_where (is_waiting job_type) t + count_where (is_running job_type) t)
unfolding update_where
recovered-counts job_type [] = (refl, refl)
recovered-counts job_type (r ∷ rest) = ground (arith, recovered-counts job_type rest)

recovered-others :
    (test : ScrapeQueue → Bool) (keep : ScrapeQueue → Bool)
    → ((r : ScrapeQueue) → keep r ≡ true → test r ≡ false)
    → ((r : ScrapeQueue) → keep (released r) ≡ true → test r ≡ false)
    → (t : Table) → select keep (update_where test released t) ≡ select keep t
unfolding update_where
recovered-others test keep outside inside [] = refl
recovered-others test keep outside inside (r ∷ rest) =
    ground (arith, outside r, inside r, recovered-others test keep outside inside rest)

-- After recover_all_stale no job of the job_type is IN_PROGRESS, the number that it returns is the
-- number of jobs that were, as many more jobs of the type are PENDING, and the jobs of every other
-- type stand as they stood.
pub recover_all_stale_accounts :
    (job_type : String) (s : Session) (t : Table)
    → s.reachable ≡ true
    → let u = (recover_all_stale job_type s t).1 in
      let n = count_where (is_running job_type) t in
      ((recover_all_stale job_type s t).0 ≡ ok n)
      × (count_where (is_running job_type) u ≡ 0)
      × (count_where (is_waiting job_type) u ≡ count_where (is_waiting job_type) t + n)
      × (select (λ r. not (str_eq r.job_type job_type)) u
          ≡ select (λ r. not (str_eq r.job_type job_type)) t)
unfolding recover_all_stale
recover_all_stale_accounts job_type s t up = rw up (
  refl,
  (recovered-counts job_type t).0,
  (recovered-counts job_type t).1,
  recovered-others (is_running job_type) (λ r. not (str_eq r.job_type job_type))
      (λ r h. ground arith) (λ r h. ground arith) t,
)

-- What recover_stale leaves IN_PROGRESS was locked within the cutoff.
abbrev pub IsFresh : String → ℕ → ℕ → ScrapeQueue → Type 0
IsFresh job_type minutes now r =
    (is_running job_type r ≡ false) ⊎ (locked_before now minutes r.locked_at ≡ false)

IsFresh-row :
    (job_type : String) (minutes : ℕ) (s : Session) (r : ScrapeQueue)
    → (is_stale job_type minutes s r ≡ true) ⊎ (is_stale job_type minutes s r ≡ false)
    → IsFresh job_type minutes s.now (if is_stale job_type minutes s r then released r else r)
IsFresh-row job_type minutes s r (inl stale) = inl (ground arith)
IsFresh-row job_type minutes s r (inr fresh) = elim (Bool-cases (is_running job_type r)) [
  | inl running ↦ inr (ground arith)
  | inr stopped ↦ inl (ground arith)
]

recover_stale-IsFresh :
    (job_type : String) (minutes : ℕ) (s : Session) (t : Table)
    → All (IsFresh job_type minutes s.now) (update_where (is_stale job_type minutes s) released t)
unfolding update_where
recover_stale-IsFresh job_type minutes s [] = tt
recover_stale-IsFresh job_type minutes s (r ∷ rest) = (
  IsFresh-row job_type minutes s r (Bool-cases (is_stale job_type minutes s r)),
  recover_stale-IsFresh job_type minutes s rest,
)

-- recover_stale frees no job that was locked less than the cutoff ago: the jobs that were running
-- and not stale before are running, with the same lock, after it.
pub recover_stale_exact :
    (job_type : String) (minutes : ℕ) (s : Session) (t : Table)
    → s.reachable ≡ true
    → let u = (recover_stale job_type minutes s t).1 in
      let fresh = λ (r : ScrapeQueue).
        is_running job_type r && not (locked_before s.now minutes r.locked_at) in
      All (IsFresh job_type minutes s.now) u × (select fresh u ≡ select fresh t)
unfolding recover_stale
recover_stale_exact job_type minutes s t up = rw up (
  recover_stale-IsFresh job_type minutes s t,
  recovered-others (is_stale job_type minutes s) _ (λ r h. ground arith) (λ r h. ground arith) t,
)
