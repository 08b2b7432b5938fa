-- ===== src/Limits/WritePermit/Tests.antt =====
-- services/agent/liveWriteLimit.ts: runs on small tables.
use recat_qbo.Prelude.Shared.{◌≡◌, refl, List, [], ◌∷◌, some, arith, ◌+◌, ◌≤◌}
use recat_qbo.Limits.WritePermit.{
  PermitDb, StoredPermit, LiveWritePermitUsage, issued, failed, live_daily_limit_reached,
  find_permit, count_permits, load_limit, create_permit, issue_live_write_permit,
}
use recat_qbo.Limits.WritePermit.Budget.{Request, run, IsWithin, issued_within_limit, run-IsWithin}

abbrev first : StoredPermit
first = record { request_id = "r1"; company_id = "acme"; utc_day = 20; limit_at_issue = 2 }

abbrev second : StoredPermit
second = record { request_id = "r2"; company_id = "acme"; utc_day = 20; limit_at_issue = 2 }

abbrev one_permit : PermitDb
one_permit = record { permits = first ∷ []; limits = ("acme", 2) ∷ []; today = some 20 }

abbrev two_permits : PermitDb
two_permits = record one_permit { permits = first ∷ second ∷ [] }

abbrev second_usage : LiveWritePermitUsage
second_usage = record { utc_day = 20; used = 2; limit = 2 }

second_issued : issue_live_write_permit one_permit "acme" "r2" ≡ (two_permits, issued second_usage)
unfolding issue_live_write_permit find_permit count_permits load_limit create_permit
second_issued = refl

third_refused :
    issue_live_write_permit two_permits "acme" "r3" ≡ (two_permits, failed live_daily_limit_reached)
unfolding issue_live_write_permit find_permit count_permits load_limit
third_refused = refl

issued_within_limit_example :
    (load_limit one_permit "acme" ≡ some 2)
    × (count_permits two_permits "acme" 20 ≡ 2)
    × (2 ≡ count_permits one_permit "acme" 20 + 1)
    × (2 ≤ 2)
    × (2 ≤ 10_000)
unfolding find_permit
issued_within_limit_example = issued_within_limit one_permit "acme" "r2" second_issued refl

abbrev requests : List Request
requests =
    record { day = some 20; company = "acme"; request = "r2" }
    ∷ record { day = some 20; company = "acme"; request = "r3" }
    ∷ record { day = some 21; company = "acme"; request = "r3" }
    ∷ []

one_permit-IsWithin : IsWithin one_permit "acme" 2
unfolding count_permits
one_permit-IsWithin day = ground arith

run-IsWithin_example : IsWithin (run one_permit requests) "acme" 2
unfolding load_limit
run-IsWithin_example = run-IsWithin one_permit "acme" 2 requests refl one_permit-IsWithin
