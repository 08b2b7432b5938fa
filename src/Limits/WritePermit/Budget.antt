-- ===== src/Limits/WritePermit/Budget.antt =====
-- services/agent/liveWriteLimit.ts: the daily budget is kept, and a request is counted once.
use recat_qbo.Prelude.Shared.{
  ◌∙◌, ℕ, ◌+◌, ◌≤◌, ◌≡◌, refl, inl, inr, List, [], ◌∷◌, ◌++◌, Option, none, some, String, Bool,
  true, arith, length-append, keep, find, str_eq_iff, if◌then◌else◌, Option-cases,
}
use recat_qbo.Limits.WritePermit.{
  StoredPermit, PermitDb, LiveWritePermitUsage, issued, find_permit, is_of, count_permits,
  create_permit, load_limit, grant_new, issue_within, issue_live_write_permit,
}

keep-append :
    (p : StoredPermit → Bool) (xs ys : List StoredPermit)
    → keep p (xs ++ ys) ≡ keep p xs ++ keep p ys
keep-append p [] ys = refl
keep-append p (x ∷ xs) ys = ground (arith, keep-append p xs ys)

find-append_new :
    (p : StoredPermit → Bool) (xs : List StoredPermit) (y : StoredPermit)
    → find p xs ≡ none
    → p y ≡ true
    → find p (xs ++ y ∷ []) ≡ some y
find-append_new p [] y h e = rw e
find-append_new p (x ∷ xs) y h e = ground (arith, find-append_new p xs y)

count-create :
    (db : PermitDb) (p : StoredPermit) (company : String) (day : ℕ)
    → count_permits (create_permit db p) company day
      ≡ count_permits db company day + (if is_of company day p then 1 else 0)
unfolding count_permits create_permit
count-create db p company day = rw (keep-append (is_of company day) db.permits (p ∷ [])) (
    ground (
      arith,
      length-append (keep (is_of company day) db.permits) (keep (is_of company day) (p ∷ [])),
    ))

-- A new permit is counted, is within the limit in force, and is what the answer says.
pub issued_within_limit :
    (db : PermitDb) (company request : String) {db' : PermitDb} {u : LiveWritePermitUsage}
    → issue_live_write_permit db company request ≡ (db', issued u)
    → find_permit db request ≡ none
    → (load_limit db company ≡ some u.limit)
      × (count_permits db' company u.utc_day ≡ u.used)
      × (u.used ≡ count_permits db company u.utc_day + 1)
      × (u.used ≤ u.limit)
      × (u.limit ≤ 10_000)
unfolding issue_live_write_permit
issued_within_limit db company request {db'} {u} h new = ground (
  arith,
  count-create db
      (record {
        request_id = request;
        company_id = company;
        utc_day = u.utc_day;
        limit_at_issue = u.limit;
      })
      company u.utc_day,
  str_eq_iff company company,
)

-- At most `n` permits of the company, on every day.
abbrev pub IsWithin : PermitDb → String → ℕ → Type 0
IsWithin db company n = (day : ℕ) → count_permits db company day ≤ n

-- A call of `issueLiveWritePermit`, by the day that the database's clock gives.
pub record Request : Type 0 where
  pub day : Option ℕ
  pub company : String
  pub request : String

pub run : PermitDb → List Request → PermitDb
run db [] = db
run db (r ∷ rs) =
    run (issue_live_write_permit (record db { today = r.day }) r.company r.request).0 rs

load_limit-issue :
    (db : PermitDb) (company other request : String)
    → load_limit (issue_live_write_permit db other request).0 company ≡ load_limit db company
unfolding issue_live_write_permit load_limit create_permit
load_limit-issue db company other request = ground arith

issue_within-IsWithin :
    (limit today : Option ℕ) (db : PermitDb) (company other request : String) (n day : ℕ)
    → (other ≡ company → limit ≡ some n)
    → count_permits db company day ≤ n
    → count_permits (issue_within limit today db other request).0 company day ≤ n
unfolding issue_within grant_new
issue_within-IsWithin none today db company other request n day l w = w
issue_within-IsWithin (some m) none db company other request n day l w = w
issue_within-IsWithin (some m) (some d) db company other request n day l w = ground (
  arith,
  count-create db
      (record { request_id = request; company_id = other; utc_day = d; limit_at_issue = m }) company
      day,
  str_eq_iff other company,
)

issue-IsWithin :
    (db : PermitDb) (company other request : String) (n day : ℕ)
    → load_limit db company ≡ some n
    → count_permits db company day ≤ n
    → count_permits (issue_live_write_permit db other request).0 company day ≤ n
unfolding issue_live_write_permit
issue-IsWithin db company other request n day l w = ground (
  arith,
  issue_within-IsWithin (load_limit db other) db.today db company other request n day (λ e. rw e l)
      w,
)

-- While a company's configured limit stays `n`, no sequence of requests, whoever makes them and on
-- whatever days, brings the company to more than `n` permits on any one day.
pub run-IsWithin :
    (db : PermitDb) (company : String) (n : ℕ) (rs : List Request)
    → load_limit db company ≡ some n
    → IsWithin db company n
    → IsWithin (run db rs) company n
unfolding run
run-IsWithin db company n [] l w = w
run-IsWithin db company n (r ∷ rs) l w =
    let db' = record db { today = r.day } in
    run-IsWithin (issue_live_write_permit db' r.company r.request).0 company n rs
      (load_limit-issue db' company r.company r.request ∙ unfold load_limit in l)
      (λ day.
        issue-IsWithin db' company r.company r.request n day (unfold load_limit in l)
          (unfold count_permits in w day))

-- The permit that stands behind an answer.
abbrev Backed : PermitDb → String → String → LiveWritePermitUsage → StoredPermit → Type 0
Backed db company request u p =
    (find_permit db request ≡ some p)
    × (p.company_id ≡ company)
    × (p.utc_day ≡ u.utc_day)
    × (p.limit_at_issue ≡ u.limit)
    × (count_permits db company u.utc_day ≡ u.used)

find-create :
    (db : PermitDb) (p : StoredPermit)
    → find_permit db p.request_id ≡ none
    → find_permit (create_permit db p) p.request_id ≡ some p
unfolding find_permit create_permit
find-create db p h =
    find-append_new _ db.permits p h (ground (arith, str_eq_iff p.request_id p.request_id))

issued-Backed :
    (db : PermitDb) (company request : String) {db' : PermitDb} {u : LiveWritePermitUsage}
    → issue_live_write_permit db company request ≡ (db', issued u)
    → (p : StoredPermit) × Backed db' company request u p
unfolding issue_live_write_permit
issued-Backed db company request {db'} {u} h = elim (Option-cases (find_permit db request)) [
  | inl new ↦
      let p : StoredPermit = record {
        request_id = request;
        company_id = company;
        utc_day = u.utc_day;
        limit_at_issue = u.limit;
      } in
      (
        p,
        (
          ground (arith, find-create db p new),
          refl,
          refl,
          refl,
          ground (arith, count-create db p company u.utc_day, str_eq_iff company company),
        ),
      )
  | inr (p, old) ↦ (
    p,
    (
      ground arith,
      ground (arith, str_eq_iff p.company_id company),
      ground arith,
      ground arith,
      ground arith,
    ),
  )
]

Backed-replay :
    (db : PermitDb) (company request : String) (u : LiveWritePermitUsage) (p : StoredPermit)
    → Backed db company request u p
    → issue_live_write_permit db company request ≡ (db, issued u)
unfolding issue_live_write_permit
Backed-replay db company request u p b = ground (arith, str_eq_iff p.company_id company)

-- A request that was given its permit is answered again as before, on any later day and under any
-- later limit, and takes no second permit.
pub issue_twice :
    (db : PermitDb) (company request : String) (later : Option ℕ) (limits : List (String × ℕ))
    {db' : PermitDb} {u : LiveWritePermitUsage}
    → issue_live_write_permit db company request ≡ (db', issued u)
    → issue_live_write_permit (record db' { today = later; limits = limits }) company request
      ≡ (record db' { today = later; limits = limits }, issued u)
issue_twice db company request later limits {db'} {u} h =
    let (p, b) = issued-Backed db company request h in
    Backed-replay (record db' { today = later; limits = limits }) company request u p
      (unfold find_permit count_permits in b)
