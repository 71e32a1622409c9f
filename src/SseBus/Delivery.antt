-- ===== src/SseBus/Delivery.antt =====
-- What `Publish` does to every channel, and what it counts.
use data_flow_agent_hub.Base.{
  ℕ, ◌+◌, Text, length, List, [], ◌∷◌, Bool, true, false, ◌≡◌, refl, ap, arith, ltb, ◌==◌,
  if◌then◌else◌, ==_iff, not, if_true, if_false, ◌++◌, ◌<◌, ◌≤◌, ◌∙◌,
}
use data_flow_agent_hub.SseBus.{capacity, Channel, Bus, subscribers, offer, send, send_all, publish}
use data_flow_agent_hub.SseBus.Subscribers.{member, member-here, member-there, Distinct}

module _ {E : Type 0} where
  -- what a send that does not block makes of a channel, by its state
  abbrev pub IsOffered : E → Channel E → Channel E → Type 0
  IsOffered ev c c' =
      (c.closed ≡ true → c' ≡ c)
      × (c.closed ≡ false
          → length c.buffer < 32
          → c' ≡ record { buffer = c.buffer ++ (ev ∷ []); closed = c.closed })
      × (c.closed ≡ false → 32 ≤ length c.buffer → c' ≡ c)

  pub channels-send :
      (ev : E) (c j : ℕ) (b : Bus E)
      → (send ev c b).channels j ≡ (if c == j then offer ev (b.channels j) else b.channels j)
  unfolding send
  channels-send ev c j b = ground (arith, ==_iff c j)

  pub channels-send_all :
      (ev : E) (cs : List ℕ) (j : ℕ) (b : Bus E)
      → Distinct cs
      → (send_all ev cs b).channels j
        ≡ (if member j cs then offer ev (b.channels j) else b.channels j)
  unfolding send_all member
  channels-send_all ev [] j b h = refl
  channels-send_all ev (c ∷ cs) j b (h, hs) =
      ground (arith, ==_iff c j, channels-send ev c j b, channels-send_all ev cs j (send ev c b) hs)

  -- an open channel with no room
  unfoldable pub is_full : Channel E → Bool
  is_full c = if c.closed then false else not (ltb (length c.buffer) 32)

  unfoldable pub full : (ℕ → Channel E) → List ℕ → ℕ
  unfolding is_full
  full channels [] = 0
  full channels (c ∷ cs) = (if is_full (channels c) then 1 else 0) + full channels cs

  full-cons :
      (f g : ℕ → Channel E) (c : ℕ) (cs : List ℕ)
      → f c ≡ g c
      → full f cs ≡ full g cs
      → full f (c ∷ cs) ≡ full g (c ∷ cs)
  unfolding full
  full-cons f g c cs e h = cc (ap is_full e)

  full-cong :
      (f g : ℕ → Channel E) (cs : List ℕ)
      → ((j : ℕ) → member j cs ≡ true → f j ≡ g j)
      → full f cs ≡ full g cs
  full-cong f g [] h = unfold full in refl
  full-cong f g (c ∷ cs) h =
      full-cons f g c cs (h c (member-here c cs))
        (full-cong f g cs (λ j m. h j (member-there c j cs m)))

  total_drops-send :
      (ev : E) (c : ℕ) (b : Bus E)
      → (send ev c b).total_drops ≡ b.total_drops + (if is_full (b.channels c) then 1 else 0)
  unfolding send is_full
  total_drops-send ev c b = ground arith

  channels-send_ne :
      (ev : E) (c j : ℕ) (cs : List ℕ) (b : Bus E)
      → member c cs ≡ false
      → member j cs ≡ true
      → (send ev c b).channels j ≡ b.channels j
  channels-send_ne ev c j cs b h m =
      ground (arith, channels-send ev c j b, ==_iff c j, ap (λ i. member i cs))

  total_drops-send_all :
      (ev : E) (cs : List ℕ) (b : Bus E)
      → Distinct cs
      → (send_all ev cs b).total_drops ≡ b.total_drops + full b.channels cs
  unfolding send_all full
  total_drops-send_all ev [] b h = omega arith
  total_drops-send_all ev (c ∷ cs) b (h, hs) =
      let rest : full (send ev c b).channels cs ≡ full b.channels cs =
        full-cong _ _ cs (λ j m. channels-send_ne ev c j cs b h m) in
      omega (arith, total_drops-send_all ev cs (send ev c b) hs, total_drops-send ev c b, rest)

  offer-IsOffered : (ev : E) (c : Channel E) → IsOffered ev c (offer ev c)
  unfolding offer
  offer-IsOffered ev c = (
    λ e. if_true c.closed _ _ e,
    λ e room.
        if_false c.closed _ _ e
        ∙ if_true (ltb (length c.buffer) capacity) _ _ (ground (arith, room)),
    λ e busy.
        if_false c.closed _ _ e
        ∙ if_false (ltb (length c.buffer) capacity) _ _ (ground (arith, busy)),
  )

  Published : E → List ℕ → ℕ → Channel E → Channel E → Type 0
  Published ev cs j c c' = (member j cs ≡ true → IsOffered ev c c') × (member j cs ≡ false → c' ≡ c)

  channels-Published :
      (ev : E) (cs : List ℕ) (j : ℕ) (b : Bus E)
      → Distinct cs
      → Published ev cs j (b.channels j) ((send_all ev cs b).channels j)
  unfolding Published
  channels-Published ev cs j b h =
      let e = channels-send_all ev cs j b h in
      (λ m. rw (e ∙ if_true _ _ _ m) (offer-IsOffered ev (b.channels j)), λ m. e ∙ if_false _ _ _ m)

  -- Publishing to a session whose list names no channel twice does the following, and nothing else,
  -- to the channels. A subscriber of the session that is open and holds fewer than 32 events gets
  -- the event behind those that it holds, in their order; one that is closed or holds 32 events is left
  -- as it was, and so is every channel that is not subscribed to the session. The counter of drops
  -- grows by the number of the subscribers that are open and hold 32 events or more.
  pub publish-delivers :
      (session : Text) (ev : E) (b : Bus E)
      → Distinct (subscribers session b)
      → ((j : ℕ)
          → (member j (subscribers session b) ≡ true
              → IsOffered ev (b.channels j) ((publish session ev b).channels j))
            × (member j (subscribers session b) ≡ false
                → (publish session ev b).channels j ≡ b.channels j))
        × ((publish session ev b).total_drops
            ≡ b.total_drops + full b.channels (subscribers session b))
  unfolding publish Published
  publish-delivers session ev b h = (
    λ j. channels-Published ev (subscribers session b) j b h,
    total_drops-send_all ev (subscribers session b) b h,
  )
