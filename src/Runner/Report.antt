-- ===== src/Runner/Report.antt =====
-- The summary of internal/runner/report.go: finish, OK and String. Times are not modelled.
use remote_command_orchestra.Common.{
  ℕ, suc, ◌+◌, ◌==◌, ltb, Bool, true, List, [], ◌∷◌, ◌++◌, Bytes, codes, decimal, length, All, ◌≡◌,
  ◌↔◌, refl, arith, if◌then◌else◌,
}
use remote_command_orchestra.Domain.{Status, success, failed, skipped, same_status}
use remote_command_orchestra.Runner.Host.{HostResult}

pub record Summary : Type 0 where
  pub total : ℕ
  pub success : ℕ
  pub failed : ℕ
  pub cancelled : ℕ
  pub skipped : ℕ

-- The switch in finish's loop.
tally : Status → Summary → Summary
tally Status.success s = record s { success = suc s.success }
tally Status.cancelled s = record s { cancelled = suc s.cancelled }
tally Status.skipped s = record s { skipped = suc s.skipped }
tally Status.failed s = record s { failed = suc s.failed }

tally_from : List HostResult → Summary → Summary
tally_from [] s = s
tally_from (h ∷ hosts) s = tally_from hosts (tally h.status s)

unfoldable pub summary : List HostResult → Summary
unfolding tally_from tally
summary hosts =
    tally_from hosts
      (record { total = length hosts; success = 0; failed = 0; cancelled = 0; skipped = 0 })

unfoldable pub is_ok : Summary → Bool
is_ok s = s.success == s.total

unfoldable pub show_summary : Summary → Bytes
show_summary s =
    decimal s.total
    ++ (codes " hosts: "
        ++ (decimal s.success
            ++ (codes " succeeded, "
                ++ (decimal s.failed
                    ++ (codes " failed, "
                        ++ (decimal s.cancelled
                            ++ (codes " cancelled"
                                ++ (if ltb 0 s.skipped
                                    then codes ", " ++ (decimal s.skipped ++ codes " skipped")
                                    else []))))))))

-- How many hosts have the status.
unfoldable pub count : Status → List HostResult → ℕ
count status [] = 0
count status (h ∷ hosts) =
    let rest = count status hosts in if same_status h.status status then suc rest else rest

abbrev Counts : Summary → List HostResult → Summary → Type 0
Counts s hosts out =
    (out.total ≡ s.total)
    × (out.success ≡ s.success + count Status.success hosts)
    × (out.failed ≡ s.failed + count Status.failed hosts)
    × (out.cancelled ≡ s.cancelled + count Status.cancelled hosts)
    × (out.skipped ≡ s.skipped + count Status.skipped hosts)

tally-Counts :
    (t : Status) (h : HostResult) (hosts : List HostResult) (s out : Summary)
    → h.status ≡ t
    → Counts (tally t s) hosts out
    → Counts s (h ∷ hosts) out
unfolding count tally
tally-Counts success h hosts s out e k = rw (e, count) (ground (arith, k))
tally-Counts failed h hosts s out e k = rw (e, count) (ground (arith, k))
tally-Counts skipped h hosts s out e k = rw (e, count) (ground (arith, k))
tally-Counts Status.cancelled h hosts s out e k = rw (e, count) (ground (arith, k))

tally_from-Counts : (hosts : List HostResult) (s : Summary) → Counts s hosts (tally_from hosts s)
unfolding tally_from count
tally_from-Counts [] s = (refl, omega arith, omega arith, omega arith, omega arith)
tally_from-Counts (h ∷ hosts) s =
    tally-Counts h.status h hosts s _ refl (tally_from-Counts hosts (tally h.status s))

one_each :
    (hosts : List HostResult)
    → count Status.success hosts
        + count Status.failed hosts
        + count Status.cancelled hosts
        + count Status.skipped hosts
      ≡ length hosts
unfolding count
one_each [] = refl
one_each (h ∷ hosts) = ground (arith, one_each hosts)

count-All :
    (hosts : List HostResult)
    → (count Status.success hosts ≡ length hosts) ↔ All (λ h. h.status ≡ success) hosts
unfolding count
count-All [] = ((λ e. tt), λ a. refl)
count-All (h ∷ hosts) = (
  (λ e.
      let n = one_each hosts in (ground (arith, e, n), (count-All hosts).0 (ground (arith, e, n)))),
  λ a. ground (arith, a.0, (count-All hosts).1 a.1),
)

-- The summary counts each host under exactly one of its four statuses, so that the counts add up
-- to the total, and the run is OK exactly if every host is a success.
pub summary_accounts :
    (hosts : List HostResult)
    → let s = summary hosts in
      (s.success + s.failed + s.cancelled + s.skipped ≡ s.total)
      × (s.total ≡ length hosts)
      × (s.success ≡ count Status.success hosts)
      × (s.failed ≡ count Status.failed hosts)
      × (s.cancelled ≡ count Status.cancelled hosts)
      × (s.skipped ≡ count Status.skipped hosts)
      × ((is_ok s ≡ true) ↔ All (λ h. h.status ≡ success) hosts)
unfolding summary is_ok
summary_accounts hosts =
    let k =
      tally_from-Counts hosts
        (record { total = length hosts; success = 0; failed = 0; cancelled = 0; skipped = 0 }) in
    let n = one_each hosts in
    let a = count-All hosts in
    (
      omega (arith, k, n),
      k.0,
      omega (arith, k),
      omega (arith, k),
      omega (arith, k),
      omega (arith, k),
      ((λ e. a.0 (ground (arith, k, e))), λ h. ground (arith, k, a.1 h)),
    )
