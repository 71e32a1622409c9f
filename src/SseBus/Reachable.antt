-- ===== src/SseBus/Reachable.antt =====
-- `cancel` and `Publish` in front of the invariant, and every state that the bus can reach.
use data_flow_agent_hub.Base.{
  ℕ, ◌≤◌, Text, same, same_iff, lookup, length, length-append, List, [], ◌∷◌, true, false, ◌&&◌,
  ◌≡◌, ◌≢◌, refl, ap, sym, ◌∙◌, arith, ◌==◌, ==_iff, if◌then◌else◌, Bool-cases, inl, inr, if_cases,
}
use data_flow_agent_hub.SseBus.{
  list_of, capacity, Channel, Bus, new_memory_bus, subscribers, subscribe, close, close_all, cancel,
  offer, send, send_all, publish, take_event, receive,
}
use data_flow_agent_hub.SseBus.Subscribers.{
  member, member-here, member-there, Distinct, member-without, Distinct-without, subscribers-cancel,
  subs-send_all,
}
use data_flow_agent_hub.SseBus.Delivery.{channels-send, channels-send_all}
use data_flow_agent_hub.SseBus.Invariant.{IsValid, new-IsValid, subscribe-IsValid}

module _ {E : Type 0} where
  close_all-absent :
      (ch : ℕ) (cs : List ℕ) (b : Bus E) → member ch cs ≡ false → close_all ch cs b ≡ b
  unfolding close_all member
  close_all-absent ch [] b h = refl
  close_all-absent ch (c ∷ cs) b h = ground (arith, close_all-absent ch cs b)

  close_all-present :
      (ch : ℕ) (cs : List ℕ) (b : Bus E)
      → Distinct cs
      → member ch cs ≡ true
      → close_all ch cs b ≡ close ch b
  unfolding close_all member
  close_all-present ch [] b d h = cc
  close_all-present ch (c ∷ cs) b (d, ds) h =
      ground (arith, ==_iff c ch, close_all-absent ch cs (close c b), close_all-present ch cs b ds)

  -- what `cancel` leaves of a channel, of the counter of channels, and of the flag
  pub record Cancelled (session : Text) (ch : ℕ) (b b' : Bus E) : Type 0 where
    pub no_panic : b'.panicked ≡ false
    pub next : b'.next ≡ b.next
    pub buffers : (j : ℕ) → (b'.channels j).buffer ≡ (b.channels j).buffer
    pub closes :
        (j : ℕ)
        → (b'.channels j).closed
          ≡ (if member ch (subscribers session b) && ch == j then true else (b.channels j).closed)

  close-Cancelled :
      (session : Text) (ch : ℕ) (b : Bus E)
      → IsValid b
      → member ch (subscribers session b) ≡ true
      → Cancelled session ch b (close ch b)
  unfolding close
  close-Cancelled session ch b v m = record {
    no_panic = ground (arith, v.is_open session ch m, v.no_panic);
    next = ground arith;
    buffers = λ j. ground (arith, ==_iff ch j);
    closes = λ j. ground (arith, ==_iff ch j, v.is_open session ch m);
  }

  nothing-Cancelled :
      (session : Text) (ch : ℕ) (b : Bus E)
      → IsValid b
      → member ch (subscribers session b) ≡ false
      → Cancelled session ch b b
  nothing-Cancelled session ch b v m = record {
    no_panic = v.no_panic;
    next = refl;
    buffers = λ j. refl;
    closes = λ j. rw m;
  }

  subs-Cancelled :
      (session : Text) (ch : ℕ) (b b' : Bus E) (m : List (Text × List ℕ))
      → Cancelled session ch b b'
      → Cancelled session ch b (record b' { subs = m })
  subs-Cancelled session ch b b' m c = record {
    no_panic = c.no_panic;
    next = c.next;
    buffers = c.buffers;
    closes = c.closes;
  }

  cancel-Cancelled :
      (session : Text) (ch : ℕ) (b : Bus E)
      → IsValid b
      → Cancelled session ch b (cancel session ch b)
  unfolding cancel
  cancel-Cancelled session ch b v =
      subs-Cancelled session ch b (close_all ch (subscribers session b) b) _
        (elim (Bool-cases (member ch (subscribers session b))) [
          | inl m ↦
              rw (close_all-present ch (subscribers session b) b (v.distinct session) m)
                (close-Cancelled session ch b v m)
          | inr m ↦
              rw (close_all-absent ch (subscribers session b) b m)
                (nothing-Cancelled session ch b v m)
        ])

  member-cancel :
      (session other : Text) (ch j : ℕ) (b : Bus E)
      → member j (subscribers other (cancel session ch b)) ≡ true
      → (member j (subscribers other b) ≡ true) × ((session ≡ other) → ch ≢ j)
  member-cancel session other ch j b h = ground (
    arith,
    ap (member j) (subscribers-cancel session other ch b),
    member-without j ch (subscribers session b),
    same_iff session other,
    ==_iff ch j,
  )

  -- a channel that is still subscribed is another one, or belongs to another session
  open-cancel :
      (session s : Text) (ch j : ℕ) (b : Bus E)
      → IsValid b
      → (member j (subscribers s b) ≡ true) × ((session ≡ s) → ch ≢ j)
      → ((cancel session ch b).channels j).closed ≡ false
  open-cancel session s ch j b v (m, ne) =
      elim (Bool-cases (member ch (subscribers session b) && ch == j)) [
        | inl e ↦ absurd (
            ne (v.one_session session s j (ground (arith, e, ==_iff ch j)) m)
              (ground (arith, e, ==_iff ch j)))
        | inr e ↦ rw ((cancel-Cancelled session ch b v).closes j, e) (v.is_open s j m)
      ]

  cancel-IsValid : (session : Text) (ch : ℕ) (b : Bus E) → IsValid b → IsValid (cancel session ch b)
  cancel-IsValid session ch b v =
      let c = cancel-Cancelled session ch b v in
      record {
        no_panic = c.no_panic;
        bounded = λ j. rw (c.buffers j) (v.bounded j);
        distinct = λ s. rw subscribers-cancel (
            if_cases Distinct (same session s) _ _ (λ _. Distinct-without ch _ (v.distinct session))
              (λ _. v.distinct s));
        is_open = λ s j h. open-cancel session s ch j b v (member-cancel session s ch j b h);
        handed_out = λ s j h. rw c.next (v.handed_out s j (member-cancel session s ch j b h).0);
        one_session = λ s o j h k.
            v.one_session s o j (member-cancel session s ch j b h).0
              (member-cancel session o ch j b k).0;
      }

  offer-bounded :
      (ev : E) (c : Channel E) → length c.buffer ≤ capacity → length (offer ev c).buffer ≤ capacity
  unfolding offer
  offer-bounded ev c h = ground (arith, length-append c.buffer (ev ∷ []))

  closed-offer : (ev : E) (c : Channel E) → (offer ev c).closed ≡ c.closed
  unfolding offer
  closed-offer ev c = ground arith

  -- one send to an open channel
  send-open :
      (ev : E) (c : ℕ) (b : Bus E)
      → (b.channels c).closed ≡ false
      → ((send ev c b).panicked ≡ b.panicked) × ((send ev c b).next ≡ b.next)
  unfolding send
  send-open ev c b h = ground arith

  closed-send :
      (ev : E) (c j : ℕ) (b : Bus E) → ((send ev c b).channels j).closed ≡ (b.channels j).closed
  closed-send ev c j b = rw channels-send (
      if_cases (λ (x : Channel E). x.closed ≡ (b.channels j).closed) (c == j) _ _
        (λ _. closed-offer ev (b.channels j)) (λ _. refl))

  panicked-send_all :
      (ev : E) (cs : List ℕ) (b : Bus E)
      → ((j : ℕ) → member j cs ≡ true → (b.channels j).closed ≡ false)
      → ((send_all ev cs b).panicked ≡ b.panicked) × ((send_all ev cs b).next ≡ b.next)
  unfolding send_all
  panicked-send_all ev [] b h = (refl, refl)
  panicked-send_all ev (c ∷ cs) b h =
      let rest =
        panicked-send_all ev cs (send ev c b)
          (λ j m. closed-send ev c j b ∙ h j (member-there c j cs m)) in
      let first = send-open ev c b (h c (member-here c cs)) in (rest.0 ∙ first.0, rest.1 ∙ first.1)

  subscribers-publish :
      (session other : Text) (ev : E) (b : Bus E)
      → subscribers other (publish session ev b) ≡ subscribers other b
  unfolding publish subscribers
  subscribers-publish session other ev b =
      ap (λ m. list_of (lookup other m)) (subs-send_all ev (subscribers session b) b)

  bounded-publish :
      (session : Text) (ev : E) (b : Bus E)
      → IsValid b
      → (j : ℕ) → length ((publish session ev b).channels j).buffer ≤ capacity
  unfolding publish
  bounded-publish session ev b v j =
      rw (channels-send_all ev (subscribers session b) j b (v.distinct session)) (
        if_cases (λ (x : Channel E). length x.buffer ≤ capacity) (member j (subscribers session b))
          _ _ (λ _. offer-bounded ev (b.channels j) (v.bounded j)) (λ _. v.bounded j))

  closed-publish :
      (session : Text) (ev : E) (b : Bus E)
      → IsValid b
      → (j : ℕ) → ((publish session ev b).channels j).closed ≡ (b.channels j).closed
  unfolding publish
  closed-publish session ev b v j =
      rw (channels-send_all ev (subscribers session b) j b (v.distinct session)) (
        if_cases (λ (x : Channel E). x.closed ≡ (b.channels j).closed)
          (member j (subscribers session b)) _ _ (λ _. closed-offer ev (b.channels j)) (λ _. refl))

  publish-IsValid :
      (session : Text) (ev : E) (b : Bus E) → IsValid b → IsValid (publish session ev b)
  publish-IsValid session ev b v =
      let sent = panicked-send_all ev (subscribers session b) b (v.is_open session) in
      let back = λ (s : Text) (j : ℕ) (h : member j (subscribers s (publish session ev b)) ≡ true).
        ap (member j) (sym (subscribers-publish session s ev b)) ∙ h in
      record {
        no_panic = unfold publish in sent.0 ∙ v.no_panic;
        bounded = bounded-publish session ev b v;
        distinct = λ s. rw subscribers-publish (v.distinct s);
        is_open = λ s j h. closed-publish session ev b v j ∙ v.is_open s j (back s j h);
        handed_out = λ s j h. unfold publish in rw (sent.1) (v.handed_out s j (back s j h));
        one_session = λ s o j h k. v.one_session s o j (back s j h) (back o j k);
      }

  take_event-le :
      (c : Channel E)
      → (length (take_event c).0.buffer ≤ length c.buffer) × ((take_event c).0.closed ≡ c.closed)
  unfolding take_event
  take_event-le c = ground arith

  receive-IsValid : (ch : ℕ) (b : Bus E) → IsValid b → IsValid (receive ch b)
  unfolding receive subscribers
  receive-IsValid ch b v =
      let taken = take_event-le (b.channels ch) in
      record {
        no_panic = v.no_panic;
        bounded = λ j. ground (arith, taken, v.bounded j, v.bounded ch, ==_iff ch j);
        distinct = v.distinct;
        is_open = λ s j h. ground (arith, taken, v.is_open s j h, ==_iff ch j);
        handed_out = v.handed_out;
        one_session = v.one_session;
      }

  -- the operations, as the callers and the scheduler order them
  pub data Step : Bus E → Bus E → Type 0 where
    subscribes : (session : Text) (b : Bus E) → Step b (subscribe session b)
    cancels : (session : Text) (ch : ℕ) (b : Bus E) → Step b (cancel session ch b)
    publishes : (session : Text) (ev : E) (b : Bus E) → Step b (publish session ev b)
    receives : (ch : ℕ) (b : Bus E) → Step b (receive ch b)

  pub data Reach (b : Bus E) : Bus E → Type 0 where
    here : Reach b b
    next : {c d : Bus E} → Reach b c → Step c d → Reach b d

  Step-IsValid : {b c : Bus E} → Step b c → IsValid b → IsValid c
  Step-IsValid (subscribes session b) v = subscribe-IsValid session b v
  Step-IsValid (cancels session ch b) v = cancel-IsValid session ch b v
  Step-IsValid (publishes session ev b) v = publish-IsValid session ev b v
  Step-IsValid (receives ch b) v = receive-IsValid ch b v

  -- From a new bus, any calls of `Subscribe`, of the cancel functions (each any number of times, in
  -- any order), of `Publish` and any reads lead only to states in which nothing has panicked, that
  -- is, no event was sent on a closed channel and no channel closed twice; no channel holds more
  -- than 32 events; and a subscribed channel is open and belongs to one session, once.
  pub Reach-IsValid : {b : Bus E} → Reach new_memory_bus b → IsValid b
  Reach-IsValid here = new-IsValid
  Reach-IsValid (next r s) = Step-IsValid s (Reach-IsValid r)
