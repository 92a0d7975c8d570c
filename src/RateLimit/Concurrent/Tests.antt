-- ===== src/RateLimit/Concurrent/Tests.antt =====
-- Two requests that race for a bucket (internal/gateway/ratelimit.go).
use hive_mind_fusion.Prelude.{◌+◌, ◌-◌, ◌*◌, ◌≤◌, Text, text, same, lookup, insert, [], ◌≡◌, refl}
use hive_mind_fusion.RateLimit.{wait_time, Bucket, new_bucket, take, token}
use hive_mind_fusion.RateLimit.Limiter.{Limits, limit_of, with_defaults}
use hive_mind_fusion.RateLimit.Concurrent.{
  Shared, missed, put, started, create, take_at, miss, created, taken, Reach, here, next,
}
use hive_mind_fusion.RateLimit.Concurrent.Invariant.{Replays}
use hive_mind_fusion.RateLimit.Concurrent.Linear.{Reach-Replays}
use hive_mind_fusion.RateLimit.Concurrent.Bound.{passed_in, passed_in-le}

abbrev limits : Limits
limits = record { default = record { requests_per_minute = 60; burst = 1 }; consumers = [] }

abbrev c : Text
c = text "c"

-- Both find no bucket under the read lock.
abbrev both_missed : Shared
both_missed =
    let s = started limits 5 in record s { threads = put 1 (missed c) (put 0 (missed c) s.threads) }

both_missed-Reach : Reach (started limits 5) both_missed
unfolding lookup
both_missed-Reach = next (next here (miss 0 c refl refl)) (miss 1 c refl refl)

abbrev both_created : Shared
both_created = create 1 c (create 0 c both_missed)

both_created-Reach : Reach (started limits 5) both_created
unfolding create lookup insert text same
both_created-Reach = next (next both_missed-Reach (created 0 c refl)) (created 1 c refl)

abbrev first : Bucket
first = new_bucket 5 60 1

abbrev served : Shared
served = take_at 1 c 0 (take 5 first).0 (take_at 0 c 0 first both_created)

served-Reach : Reach (started limits 5) served
unfolding take_at create with_defaults limit_of lookup insert text same
served-Reach =
    next (next both_created-Reach (taken 0 c 0 first refl refl))
      (taken 1 c 0 (take 5 first).0 refl refl)

-- They share one bucket, so that one of them passes.
one_passes : passed_in c served.log ≡ 1
unfolding passed_in take_at take new_bucket text same create lookup insert wait_time
one_passes = refl

Reach-Replays_example : Replays limits served.log
Reach-Replays_example = Reach-Replays limits 5 served served-Reach

passed_in-le_example :
    passed_in c served.log * token
    ≤ (limit_of c (with_defaults limits)).burst * token
      + (served.clock - 5) * (limit_of c (with_defaults limits)).requests_per_minute
passed_in-le_example = passed_in-le c limits 5 served served-Reach
