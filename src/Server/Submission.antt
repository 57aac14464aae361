-- ===== src/Server/Submission.antt =====
-- infrastructure/work_server/server.py, POST /jobs: one answer for each submitted URL.
use sport_crawl.Prelude.{none, some, List, [], ◌∷◌}
use sport_crawl.Server.Adapter.{Database, JobRecord, Config}
use sport_crawl.Server.Json.{Json, JsonList}
use sport_crawl.Server.Requests.{Posted, accepted, Answers}
use sport_crawl.Server.Insertion.{Adds, Added}
use sport_crawl.Server.Decisions.{IsCovered, IsCutShort}

abbrev posted_jobs : Posted → List JobRecord
posted_jobs (accepted r) = r ∷ []
posted_jobs _ = []

module _ (config : Config) where
  -- What the answers say of the URLs.
  abbrev IsAccount : JsonList → Database → Answers → Database → Type 0
  IsAccount urls db none db' =
      (jobs : List JobRecord) × IsCutShort config urls jobs × Adds config db jobs db'
  IsAccount urls db (some (jobs, out)) db' =
      IsCovered config urls jobs out × Adds config db jobs db'

  -- What the answers say of the URLs, on a table that is consistent and safe.
  abbrev pub IsAnswered : JsonList → Database → Answers → Database → Type 0
  IsAnswered urls db none db' =
      (jobs : List JobRecord) × IsCutShort config urls jobs × Added config db jobs db'
  IsAnswered urls db (some (jobs, out)) db' =
      IsCovered config urls jobs out × Added config db jobs db'
