-- ===== src/SseBus/Examples.antt =====
-- Runs of the bus.
use data_flow_agent_hub.Base.{ℕ, Text, codes, same, [], ◌∷◌, ◌≡◌, refl, true, false, ◌+◌}
use data_flow_agent_hub.SseBus.{Bus, new_memory_bus, subscribers, subscribe, cancel, publish}
use data_flow_agent_hub.SseBus.Subscribers.{member, Distinct}
use data_flow_agent_hub.SseBus.Delivery.{IsOffered, full, publish-delivers}
use data_flow_agent_hub.SseBus.Invariant.{IsValid}
use data_flow_agent_hub.SseBus.Reachable.{here, next, subscribes, cancels, publishes, Reach-IsValid}

abbrev session : Text
session = codes "s1"

abbrev two_readers : Bus ℕ
two_readers = subscribe session (subscribe session new_memory_bus)

two_readers-Distinct : Distinct (subscribers session two_readers)
unfolding subscribers subscribe new_memory_bus member same
two_readers-Distinct = (refl, (refl, tt))

publish-delivers_example :
    ((j : ℕ)
      → (member j (subscribers session two_readers) ≡ true
          → IsOffered 7 (two_readers.channels j) ((publish session 7 two_readers).channels j))
        × (member j (subscribers session two_readers) ≡ false
            → (publish session 7 two_readers).channels j ≡ two_readers.channels j))
    × ((publish session 7 two_readers).total_drops
        ≡ two_readers.total_drops + full two_readers.channels (subscribers session two_readers))
publish-delivers_example = publish-delivers session 7 two_readers two_readers-Distinct

abbrev after_cancel : Bus ℕ
after_cancel =
    publish session 8 (cancel session 0 (cancel session 0 (publish session 7 two_readers)))

both_get_it : ((publish session 7 two_readers).channels 1).buffer ≡ 7 ∷ []
unfolding publish subscribe new_memory_bus same
both_get_it = refl

one_is_closed : (after_cancel.channels 0).closed ≡ true
unfolding publish cancel subscribe new_memory_bus same
one_is_closed = refl

Reach-IsValid_example : IsValid after_cancel
Reach-IsValid_example = Reach-IsValid (
    next
      (next
        (next
          (next (next (next here (subscribes session _)) (subscribes session _))
            (publishes session 7 _))
          (cancels session 0 _))
        (cancels session 0 _))
      (publishes session 8 _))
