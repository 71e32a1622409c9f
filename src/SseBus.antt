-- ===== src/SseBus.antt =====
-- internal/ssebus/bus.go: `MemoryBus`, with its channels as a store. A channel is a number into the
-- store; a send on a closed channel and a second close, which panic in Go, set a flag. The mutex
-- makes each operation one step. The counter of drops is not bounded, and logging is left out.
pub mod Subscribers
pub mod Delivery
pub mod Invariant
pub mod Reachable
pub mod Examples
use data_flow_agent_hub.Base.{
  ℕ, ◌+◌, Text, lookup, put, remove, length, List, [], ◌∷◌, ◌++◌, Bool, true, false, Option, none,
  some, ltb, ◌==◌, if◌then◌else◌,
}

-- `make(chan Event, 32)`
abbrev pub capacity : ℕ
capacity = 32

pub record Channel (E : Type 0) : Type 0 where
  pub buffer : List E
  pub closed : Bool

pub record Bus (E : Type 0) : Type 0 where
  pub subs : List (Text × List ℕ)
  pub channels : ℕ → Channel E
  pub next : ℕ
  pub total_drops : ℕ
  pub panicked : Bool

unfoldable pub list_of : Option (List ℕ) → List ℕ
list_of none = []
list_of (some list) = list

-- the entries that the loop of `cancel` keeps
unfoldable pub without : ℕ → List ℕ → List ℕ
without ch [] = []
without ch (c ∷ list) = let rest = without ch list in if c == ch then rest else c ∷ rest

-- `delete` of a list that has become empty
unfoldable pub store_list : Text → List ℕ → List (Text × List ℕ) → List (Text × List ℕ)
unfolding put remove
store_list session [] subs = remove session subs
store_list session (c ∷ out) subs = put session (c ∷ out) subs

module _ {E : Type 0} where
  abbrev pub open_channel : Channel E
  open_channel = record { buffer = []; closed = false }

  abbrev pub set_channel : ℕ → Channel E → (ℕ → Channel E) → ℕ → Channel E
  set_channel i c channels j = if i == j then c else channels j

  -- `NewMemoryBus`
  unfoldable pub new_memory_bus : Bus E
  new_memory_bus = record {
    subs = [];
    channels = λ i. open_channel;
    next = 0;
    total_drops = 0;
    panicked = false;
  }

  -- `b.subs[sessionID]`
  unfoldable pub subscribers : Text → Bus E → List ℕ
  unfolding list_of lookup
  subscribers session b = list_of (lookup session b.subs)

  -- `Subscribe`; the number of the new channel is `b.next`
  unfoldable pub subscribe : Text → Bus E → Bus E
  unfolding put
  subscribe session b = record b {
    subs = put session (subscribers session b ++ (b.next ∷ [])) b.subs;
    channels = set_channel b.next open_channel b.channels;
    next = b.next + 1;
  }

  -- `close(c)`
  unfoldable pub close : ℕ → Bus E → Bus E
  close c b = if (b.channels c).closed then record b { panicked = true } else record b {
    channels = set_channel c (record (b.channels c) { closed = true }) b.channels;
  }

  -- the closes of the same loop
  unfoldable pub close_all : ℕ → List ℕ → Bus E → Bus E
  unfolding close
  close_all ch [] b = b
  close_all ch (c ∷ list) b = close_all ch list (if c == ch then close c b else b)

  -- the function `cancel` that `Subscribe` returns for the session and the channel
  unfoldable pub cancel : Text → ℕ → Bus E → Bus E
  unfolding store_list without close_all
  cancel session ch b =
      let b' = close_all ch (subscribers session b) b in
      record b' { subs = store_list session (without ch (subscribers session b)) b'.subs }

  -- what a send that does not block leaves in a channel
  unfoldable pub offer : E → Channel E → Channel E
  offer ev c =
      if c.closed
      then c
      else if ltb (length c.buffer) capacity
      then record c { buffer = c.buffer ++ (ev ∷ []) }
      else c

  -- the `select` of `Publish` for one channel
  unfoldable pub send : E → ℕ → Bus E → Bus E
  unfolding offer
  send ev c b =
      if (b.channels c).closed
      then record b { panicked = true }
      else if ltb (length (b.channels c).buffer) capacity
      then record b { channels = set_channel c (offer ev (b.channels c)) b.channels }
      else record b { total_drops = b.total_drops + 1 }

  unfoldable pub send_all : E → List ℕ → Bus E → Bus E
  unfolding send
  send_all ev [] b = b
  send_all ev (c ∷ cs) b = send_all ev cs (send ev c b)

  -- `Publish`
  unfoldable pub publish : Text → E → Bus E → Bus E
  unfolding send_all subscribers
  publish session ev b = send_all ev (subscribers session b) b

  -- the reader of a stream takes the oldest event out of its channel
  unfoldable pub take_event : Channel E → Channel E × Option E
  take_event c = elim c.buffer [
    | [] ↦ (c, none)
    | ev ∷ rest ↦ (record c { buffer = rest }, some ev)
  ]

  unfoldable pub receive : ℕ → Bus E → Bus E
  unfolding take_event
  receive c b = record b { channels = set_channel c (take_event (b.channels c)).0 b.channels }
