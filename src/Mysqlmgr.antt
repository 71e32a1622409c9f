-- ===== src/Mysqlmgr.antt =====
-- internal/mysqlmgr/manager.go: the pools of the data sets' databases. A pool is a number; which pools
-- are open is part of the state. What `sql.Open` and `Ping` answer is a parameter, and the mutex makes
-- each operation one step.
pub mod Ddl
pub mod Fields
pub mod Pools
pub mod Examples
use data_flow_agent_hub.Base.{
  ℕ, ◌+◌, Text, lookup, put, remove, List, [], ◌∷◌, Bool, true, false, Option, none, some, ◌==◌,
  if◌then◌else◌,
}

pub record Manager : Type 0 where
  pub pools : List (Text × ℕ)
  pub is_open : ℕ → Bool
  pub next : ℕ

-- what `Connect` returns
pub data Connected : Type 0 where
  pool : ℕ → Connected
  open_error ping_error : Text → Connected

-- `NewManager`
unfoldable pub new_manager : Manager
new_manager = record { pools = []; is_open = λ p. false; next = 0 }

abbrev pub set_open : ℕ → Bool → (ℕ → Bool) → ℕ → Bool
set_open p b is_open q = if p == q then b else is_open q

-- `pool.Close()`
unfoldable pub close_pool : ℕ → Manager → Manager
close_pool p m = record m { is_open = set_open p false m.is_open }

-- `sql.Open`, which takes the next number
unfoldable pub open_pool : Manager → Manager
open_pool m = record m { is_open = set_open m.next true m.is_open; next = m.next + 1 }

-- the ping of a new pool, and the entry of one that answers
unfoldable pub keep_pool : Bool → Text → Text → ℕ → Manager → Connected × Manager
keep_pool true id database p m = (ping_error database, close_pool p m)
keep_pool false id database p m = (pool p, record m { pools = put id p m.pools })

unfoldable pub connect_new : Bool → Bool → Text → Text → Manager → Connected × Manager
connect_new true ping_fails id database m = (open_error database, m)
connect_new false ping_fails id database m = keep_pool ping_fails id database m.next (open_pool m)

unfoldable pub connect_found : Option ℕ → Bool → Bool → Text → Text → Manager → Connected × Manager
connect_found (some p) open_fails ping_fails id database m = (pool p, m)
connect_found none open_fails ping_fails id database m =
    connect_new open_fails ping_fails id database m

-- `Connect`
unfoldable pub connect : Bool → Bool → Text → Text → Manager → Connected × Manager
connect open_fails ping_fails id database m =
    connect_found (lookup id m.pools) open_fails ping_fails id database m

-- `GetPool`
unfoldable pub get_pool : Text → Manager → Option ℕ
get_pool id m = lookup id m.pools

-- `Close`
unfoldable pub close_found : Option ℕ → Text → Manager → Manager
close_found none id m = m
close_found (some p) id m = let m' = close_pool p m in record m' { pools = remove id m'.pools }

unfoldable pub close : Text → Manager → Manager
close id m = close_found (lookup id m.pools) id m

-- the closes of `CloseAll`, which deletes every entry
unfoldable pub close_pools : List (Text × ℕ) → Manager → Manager
close_pools [] m = m
close_pools ((id, p) ∷ pools) m = close_pools pools (close_pool p m)

unfoldable pub close_all : Manager → Manager
close_all m = let m' = close_pools m.pools m in record m' { pools = [] }

-- the operations that change the manager
pub data Operation : Type 0 where
  connects : Bool → Bool → Text → Text → Operation
  closes : Text → Operation
  closes_all : Operation

unfoldable pub run_one : Operation → Manager → Manager
run_one (connects open_fails ping_fails id database) m =
    (connect open_fails ping_fails id database m).1
run_one (closes id) m = close id m
run_one closes_all m = close_all m

unfoldable pub run_all : List Operation → Manager → Manager
run_all [] m = m
run_all (o ∷ os) m = run_all os (run_one o m)
