-- ===== src/Limits/WritePermit.antt =====
-- services/agent/liveWriteLimit.ts: the daily permits of live writes. The tables that the default
-- dependencies query are lists of rows; the database's clock and the configured limit are arguments.
pub mod Budget
mod Tests
use recat_qbo.Prelude.Shared.{
  ℕ, ◌+◌, Bool, ◌&&◌, ◌||◌, not, List, [], ◌∷◌, ◌++◌, Option, none, some, String, ltb, leb, ◌==◌,
  str_eq, if◌then◌else◌, length, keep, find,
}
use recat_qbo.Prelude.Assoc.{lookup}

-- A row of "LiveWritePermit"; the day is the number of its date.
pub record StoredPermit : Type 0 where
  pub request_id : String
  pub company_id : String
  pub utc_day : ℕ
  pub limit_at_issue : ℕ

pub record PermitDb : Type 0 where
  pub permits : List StoredPermit
  pub limits : List (String × ℕ)  -- "AgentCompanyConfig"."dailyLiveWriteLimit" by company
  pub today : Option ℕ  -- the day of the database's clock, if it gives a valid date

pub data LiveWriteLimitError : Type 0 where
  live_daily_limit_reached live_write_limit_unavailable : LiveWriteLimitError

pub record LiveWritePermitUsage : Type 0 where
  pub utc_day : ℕ
  pub used : ℕ
  pub limit : ℕ

pub data Issue : Type 0 where
  issued : LiveWritePermitUsage → Issue
  failed : LiveWriteLimitError → Issue

-- The primary key of the table is the request id.
unfoldable pub find_permit : PermitDb → String → Option StoredPermit
find_permit db request = find (λ p. str_eq p.request_id request) db.permits

abbrev pub is_of : String → ℕ → StoredPermit → Bool
is_of company day p = str_eq p.company_id company && p.utc_day == day

unfoldable pub count_permits : PermitDb → String → ℕ → ℕ
count_permits db company day = length (keep (is_of company day) db.permits)

unfoldable pub create_permit : PermitDb → StoredPermit → PermitDb
create_permit db p = record db { permits = db.permits ++ p ∷ [] }

unfoldable pub load_limit : PermitDb → String → Option ℕ
load_limit db company = lookup company db.limits

unfoldable pub replay : PermitDb → String → StoredPermit → PermitDb × Issue
replay db company p =
    if str_eq p.company_id company
    then (
      db,
      issued (record {
        utc_day = p.utc_day;
        used = count_permits db company p.utc_day;
        limit = p.limit_at_issue;
      }),
    )
    else (db, failed live_write_limit_unavailable)

unfoldable pub grant_new : PermitDb → String → String → ℕ → ℕ → PermitDb × Issue
grant_new db company request limit day =
    let used = count_permits db company day in
    if leb limit used then (db, failed live_daily_limit_reached) else (
      create_permit db (record {
        request_id = request;
        company_id = company;
        utc_day = day;
        limit_at_issue = limit;
      }),
      issued (record { utc_day = day; used = used + 1; limit = limit }),
    )

unfoldable pub issue_within : Option ℕ → Option ℕ → PermitDb → String → String → PermitDb × Issue
issue_within none day db company request = (db, failed live_write_limit_unavailable)
issue_within (some limit) none db company request = (db, failed live_write_limit_unavailable)
issue_within (some limit) (some day) db company request =
    if ltb limit 1 || ltb 10_000 limit
    then (db, failed live_write_limit_unavailable)
    else grant_new db company request limit day

-- `issueLiveWritePermit`: a request that has its permit is answered from it.
unfoldable pub issue_live_write_permit : PermitDb → String → String → PermitDb × Issue
unfolding replay issue_within grant_new
issue_live_write_permit db company request = elim (find_permit db request) [
  | some p ↦ replay db company p
  | none ↦ issue_within (load_limit db company) db.today db company request
]
