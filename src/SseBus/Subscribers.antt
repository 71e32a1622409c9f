-- ===== src/SseBus/Subscribers.antt =====
-- The lists of subscribers, as the operations change them.
use data_flow_agent_hub.Base.{
  ℕ, Text, same, lookup, lookup-put, lookup-remove, List, [], ◌∷◌, ◌++◌, Bool, true, false, ◌||◌,
  ◌≡◌, refl, ap, ◌∙◌, arith, ==_iff, ◌==◌, if◌then◌else◌,
}
use data_flow_agent_hub.SseBus.{
  Bus, list_of, subscribers, subscribe, without, store_list, close, close_all, cancel, send,
  send_all,
}

unfoldable pub member : ℕ → List ℕ → Bool
member j [] = false
member j (c ∷ cs) = c == j || member j cs

abbrev pub Distinct : List ℕ → Type 0
Distinct [] = Unit
Distinct (c ∷ cs) = (member c cs ≡ false) × Distinct cs

pub member-here : (c : ℕ) (cs : List ℕ) → member c (c ∷ cs) ≡ true
unfolding member
member-here c cs = ground (arith, ==_iff c c)

pub member-there : (c j : ℕ) (cs : List ℕ) → member j cs ≡ true → member j (c ∷ cs) ≡ true
unfolding member
member-there c j cs h = ground arith

pub member-append : (j : ℕ) (cs ds : List ℕ) → member j (cs ++ ds) ≡ (member j cs || member j ds)
unfolding member
member-append j [] ds = refl
member-append j (c ∷ cs) ds = ground (arith, member-append j cs ds)

pub member-without :
    (j ch : ℕ) (cs : List ℕ) → member j (without ch cs) ≡ (if ch == j then false else member j cs)
unfolding member without
member-without j ch [] = ground arith
member-without j ch (c ∷ cs) = ground (arith, member-without j ch cs)

pub Distinct-without : (ch : ℕ) (cs : List ℕ) → Distinct cs → Distinct (without ch cs)
unfolding without
Distinct-without ch [] h = tt
Distinct-without ch (c ∷ cs) (h, hs) =
    ground (arith, member-without c ch cs, Distinct-without ch cs hs)

pub Distinct-append :
    (cs : List ℕ) (c : ℕ) → Distinct cs → member c cs ≡ false → Distinct (cs ++ (c ∷ []))
unfolding member
Distinct-append [] c h m = (refl, tt)
Distinct-append (d ∷ cs) c (h, hs) m =
    ground (arith, member-append d cs (c ∷ []), Distinct-append cs c hs)

lookup-store_list :
    (session other : Text) (out : List ℕ) (m : List (Text × List ℕ))
    → list_of (lookup other (store_list session out m))
      ≡ (if same session other then out else list_of (lookup other m))
unfolding store_list list_of
lookup-store_list session other [] m = ground (arith, lookup-remove session other m)
lookup-store_list session other (c ∷ out) m = ground (arith, lookup-put session other (c ∷ out) m)

module _ {E : Type 0} where
  pub subscribers-subscribe :
      (session other : Text) (b : Bus E)
      → subscribers other (subscribe session b) ≡ (
          if same session other
          then subscribers session b ++ (b.next ∷ [])
          else subscribers other b)
  unfolding subscribers subscribe
  subscribers-subscribe session other b =
      ground
        (arith, lookup-put session other (list_of (lookup session b.subs) ++ (b.next ∷ [])) b.subs)

  subs-close_all : (ch : ℕ) (cs : List ℕ) (b : Bus E) → (close_all ch cs b).subs ≡ b.subs
  unfolding close_all
  subs-close_all ch [] b = refl
  subs-close_all ch (c ∷ cs) b =
      subs-close_all ch cs (if c == ch then close c b else b) ∙ ground arith

  pub subscribers-cancel :
      (session other : Text) (ch : ℕ) (b : Bus E)
      → subscribers other (cancel session ch b)
        ≡ (if same session other then without ch (subscribers session b) else subscribers other b)
  unfolding subscribers cancel
  subscribers-cancel session other ch b =
      lookup-store_list session other (without ch (subscribers session b)) _
      ∙ ap
          (λ m.
            if same session other
            then without ch (subscribers session b)
            else list_of (lookup other m))
          (subs-close_all ch (subscribers session b) b)

  pub subs-send_all : (ev : E) (cs : List ℕ) (b : Bus E) → (send_all ev cs b).subs ≡ b.subs
  unfolding send_all
  subs-send_all ev [] b = refl
  subs-send_all ev (c ∷ cs) b = subs-send_all ev cs (send ev c b) ∙ ground arith
