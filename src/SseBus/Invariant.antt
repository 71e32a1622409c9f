-- ===== src/SseBus/Invariant.antt =====
-- What holds of the bus between two operations.
use data_flow_agent_hub.Base.{
  ℕ, ◌≤◌, ◌<◌, Text, same, same_iff, length, [], ◌∷◌, true, false, ◌||◌, ◌&&◌, ◌≡◌, refl, ap, sym,
  ◌∙◌, arith, ◌==◌, Bool-cases, inl, inr, ◌⊎◌, if_cases,
}
use data_flow_agent_hub.SseBus.{capacity, Bus, new_memory_bus, subscribers, subscribe}
use data_flow_agent_hub.SseBus.Subscribers.{
  member, Distinct, member-append, Distinct-append, subscribers-subscribe,
}

member-one : (j c : ℕ) → member j (c ∷ []) ≡ (c == j)
unfolding member
member-one j c = ground arith

module _ {E : Type 0} where
  -- A subscribed channel is open, was handed out, and is subscribed to one session, once.
  pub record IsValid (b : Bus E) : Type 0 where
    pub no_panic : b.panicked ≡ false
    pub bounded : (j : ℕ) → length (b.channels j).buffer ≤ capacity
    pub distinct : (session : Text) → Distinct (subscribers session b)
    pub is_open :
        (session : Text) (j : ℕ)
        → member j (subscribers session b) ≡ true
        → (b.channels j).closed ≡ false
    pub handed_out : (session : Text) (j : ℕ) → member j (subscribers session b) ≡ true → j < b.next
    pub one_session :
        (session other : Text) (j : ℕ)
        → member j (subscribers session b) ≡ true
        → member j (subscribers other b) ≡ true
        → session ≡ other

  pub new-IsValid : IsValid new_memory_bus
  unfolding new_memory_bus subscribers member
  new-IsValid = record {
    no_panic = refl;
    bounded = λ j. omega arith;
    distinct = λ s. tt;
    is_open = λ s j h. refl;
    handed_out = λ s j h. cc;
    one_session = λ s o j h k. cc;
  }

  fresh : (b : Bus E) → IsValid b → (session : Text) → member b.next (subscribers session b) ≡ false
  fresh b v session = elim (Bool-cases (member b.next (subscribers session b))) [
    | inl h ↦ absurd (omega (arith, v.handed_out session b.next h))
    | inr h ↦ h
  ]

  -- subscribing adds the new channel to the list of its session alone
  member-subscribe :
      (session other : Text) (j : ℕ) (b : Bus E)
      → member j (subscribers other (subscribe session b))
        ≡ (member j (subscribers other b) || (same session other && b.next == j))
  member-subscribe session other j b = ground (
    arith,
    ap (member j) (subscribers-subscribe session other b),
    member-append j (subscribers session b) (b.next ∷ []),
    member-one j b.next,
    same_iff session other,
  )

  member-subscribe_cases :
      (session other : Text) (j : ℕ) (b : Bus E)
      → member j (subscribers other (subscribe session b)) ≡ true
      → (member j (subscribers other b) ≡ true) ⊎ ((session ≡ other) × (b.next ≡ j))
  member-subscribe_cases session other j b h =
      ground (arith, member-subscribe session other j b, same_iff session other)

  Distinct-subscribe :
      (session s : Text) (b : Bus E) → IsValid b → Distinct (subscribers s (subscribe session b))
  Distinct-subscribe session s b v = rw subscribers-subscribe (
      if_cases Distinct (same session s) _ _
        (λ _. Distinct-append _ b.next (v.distinct session) (fresh b v session))
        (λ _. v.distinct s))

  one_session-subscribe :
      (session s o : Text) (j : ℕ) (b : Bus E)
      → IsValid b
      → (member j (subscribers s b) ≡ true) ⊎ ((session ≡ s) × (b.next ≡ j))
      → (member j (subscribers o b) ≡ true) ⊎ ((session ≡ o) × (b.next ≡ j))
      → s ≡ o
  one_session-subscribe session s o j b v (inl h) (inl k) = v.one_session s o j h k
  one_session-subscribe session s o j b v (inl h) (inr (e, k)) =
      absurd (omega (arith, v.handed_out s j h))
  one_session-subscribe session s o j b v (inr (e, h)) (inl k) =
      absurd (omega (arith, v.handed_out o j k))
  one_session-subscribe session s o j b v (inr (e, h)) (inr (f, k)) = sym e ∙ f

  open-subscribe :
      (session s : Text) (j : ℕ) (b : Bus E)
      → IsValid b
      → (member j (subscribers s b) ≡ true) ⊎ ((session ≡ s) × (b.next ≡ j))
      → (((subscribe session b).channels j).closed ≡ false) × (j < (subscribe session b).next)
  unfolding subscribe
  open-subscribe session s j b v (inl h) = ground (arith, v.is_open s j h, v.handed_out s j h)
  open-subscribe session s j b v (inr (e, h)) = ground arith

  pub subscribe-IsValid : (session : Text) (b : Bus E) → IsValid b → IsValid (subscribe session b)
  subscribe-IsValid session b v = record {
    no_panic = unfold subscribe in v.no_panic;
    bounded = λ j. unfold subscribe in ground (arith, v.bounded j);
    distinct = λ s. Distinct-subscribe session s b v;
    is_open = λ s j h. (open-subscribe session s j b v (member-subscribe_cases session s j b h)).0;
    handed_out =
        λ s j h. (open-subscribe session s j b v (member-subscribe_cases session s j b h)).1;
    one_session = λ s o j h k.
        one_session-subscribe session s o j b v (member-subscribe_cases session s j b h)
          (member-subscribe_cases session o j b k);
  }
