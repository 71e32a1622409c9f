-- ===== src/Ratelimit.antt =====
-- internal/ratelimit: the sliding window of requests. Redis keeps a sorted set for each key; its
-- commands, the clock and the rounding of a time to a score (a float of 64 bits) are parameters.
use data_flow_agent_hub.Base.{
  ℕ, ◌-◌, ◌%◌, Text, codes, decimal, lookup, put, length, ltb, leb, List, [], ◌∷◌, ◌++◌, Bool, not,
  Option, none, some, if◌then◌else◌,
}

-- the members of a sorted set, with their scores
abbrev pub SortedSet : Type 0
SortedSet = List (Text × ℕ)

-- `ZADD`, which changes the score of a member that is there
unfoldable pub z_add : Text → ℕ → SortedSet → SortedSet
z_add member score set = put member score set

-- `ZREMRANGEBYSCORE key 0 edge`
unfoldable pub z_rem_range_by_score : ℕ → SortedSet → SortedSet
z_rem_range_by_score edge [] = []
z_rem_range_by_score edge ((member, score) ∷ set) =
    let rest = z_rem_range_by_score edge set in
    if leb score edge then rest else (member, score) ∷ rest

-- the name of a request
unfoldable pub member_of : ℕ → Text
member_of now = decimal now ++ (codes "-" ++ decimal (now % 1000))

unfoldable pub set_of : Option SortedSet → SortedSet
set_of none = []
set_of (some set) = set

-- the two times that the code reads, in nanoseconds
pub record Clock : Type 0 where
  pub now : ℕ
  pub later : ℕ
  pub score : ℕ → ℕ

-- the set behind the commands of the pipeline
unfoldable pub slide : Clock → ℕ → SortedSet → SortedSet
slide clock window set =
    z_rem_range_by_score (clock.later - window)
      (z_add (member_of clock.now) (clock.score clock.now) set)

abbrev pub Redis : Type 0
Redis = List (Text × SortedSet)

unfoldable pub counted : ℕ → Text → SortedSet → Redis → Bool × Redis
counted limit key set redis = (not (ltb limit (length set)), put key set redis)

-- `Allow`: whether there is a client, and whether the pipeline fails, which is before its first command
unfoldable pub allow : Bool → Bool → Clock → Text → ℕ → ℕ → Bool → Redis → Bool × Redis
allow has_redis exec_fails clock key limit window fail_closed redis =
    let name = codes "rl:" ++ key in
    if not has_redis
    then (not fail_closed, redis)
    else if exec_fails
    then (not fail_closed, redis)
    else counted limit name (slide clock window (set_of (lookup name redis))) redis
