-- ===== src/Mysqlmgr/Pools.antt =====
-- internal/mysqlmgr/manager.go: the pools that are open, over any run of the manager's operations.
use data_flow_agent_hub.Base.{
  ℕ, ◌<◌, Text, same_iff, lookup, lookup-put, lookup-remove, List, [], ◌∷◌, true, false, Option,
  none, some, ◌≡◌, refl, arith, Bool-cases, inl, inr, Bool, ◌==◌,
}
use data_flow_agent_hub.Mysqlmgr.{
  Manager, new_manager, close_pool, close_pools, open_pool, keep_pool, connect_new, connect_found,
  connect, close_found, close, close_all, Operation, connects, closes, closes_all, run_one, run_all,
}

-- The pools of the map are the open ones, each under one data set.
pub record IsSound (m : Manager) : Type 0 where
  pub held : (id : Text) (p : ℕ) → lookup id m.pools ≡ some p → m.is_open p ≡ true
  pub reached : (p : ℕ) → m.is_open p ≡ true → (id : Text) × (lookup id m.pools ≡ some p)
  pub single :
      (id j : Text) (p : ℕ) → lookup id m.pools ≡ some p → lookup j m.pools ≡ some p → id ≡ j
  pub issued : (p : ℕ) → m.is_open p ≡ true → p < m.next

new_manager-IsSound : IsSound new_manager
unfolding new_manager lookup
new_manager-IsSound = record {
  held = λ id p h. cc;
  reached = λ p h. cc;
  single = λ id j p h k. cc;
  issued = λ p h. cc;
}

-- a pool that did not answer is closed again
keep_pool-IsSound :
    (b : Bool) (id database : Text) (m : Manager)
    → IsSound m
    → lookup id m.pools ≡ none
    → IsSound (keep_pool b id database m.next (open_pool m)).1
unfolding keep_pool open_pool close_pool
keep_pool-IsSound true id database m v h = record {
  held = λ j p e. ground (arith, v.held j p e, v.issued p);
  reached = λ p e. v.reached p (ground arith);
  single = λ j k p e f. v.single j k p e f;
  issued = λ p e. ground (arith, v.issued p);
}
keep_pool-IsSound false id database m v h = record {
  held = λ j p e. ground (arith, lookup-put id j m.next m.pools, v.held j p, v.issued p);
  reached = λ p e. elim (Bool-cases (m.next == p)) [
    | inl new ↦ (id, ground (arith, lookup-put id id m.next m.pools, same_iff id id))
    | inr old ↦
        let r = v.reached p (ground arith) in
        (r.0, ground (arith, lookup-put id r.0 m.next m.pools, same_iff id r.0, r.1))
  ];
  single = λ j k p e f. ground (
    arith,
    lookup-put id j m.next m.pools,
    lookup-put id k m.next m.pools,
    same_iff id j,
    same_iff id k,
    v.single j k p,
    v.held j p,
    v.held k p,
    v.issued p,
  );
  issued = λ p e. ground (arith, v.issued p);
}

connect_new-IsSound :
    (open_fails ping_fails : Bool) (id database : Text) (m : Manager)
    → IsSound m
    → lookup id m.pools ≡ none
    → IsSound (connect_new open_fails ping_fails id database m).1
unfolding connect_new
connect_new-IsSound true ping_fails id database m v h = v
connect_new-IsSound false ping_fails id database m v h =
    keep_pool-IsSound ping_fails id database m v h

connect_found-IsSound :
    (found : Option ℕ) (open_fails ping_fails : Bool) (id database : Text) (m : Manager)
    → IsSound m
    → lookup id m.pools ≡ found
    → IsSound (connect_found found open_fails ping_fails id database m).1
unfolding connect_found
connect_found-IsSound (some p) open_fails ping_fails id database m v h = v
connect_found-IsSound none open_fails ping_fails id database m v h =
    connect_new-IsSound open_fails ping_fails id database m v h

close_found-IsSound :
    (found : Option ℕ) (id : Text) (m : Manager)
    → IsSound m
    → lookup id m.pools ≡ found
    → IsSound (close_found found id m)
unfolding close_found close_pool
close_found-IsSound none id m v h = v
close_found-IsSound (some q) id m v h = record {
  held = λ j p e.
      ground (arith, lookup-remove id j m.pools, same_iff id j, v.held j p, v.single id j p);
  reached = λ p e.
      let r = v.reached p (ground arith) in
      (r.0, ground (arith, lookup-remove id r.0 m.pools, same_iff id r.0, r.1));
  single = λ j k p e f.
      ground (arith, lookup-remove id j m.pools, lookup-remove id k m.pools, v.single j k p);
  issued = λ p e. v.issued p (ground arith);
}

-- closing opens nothing
close_pools-opens_nothing :
    (pools : List (Text × ℕ)) (m : Manager) (p : ℕ)
    → m.is_open p ≡ false
    → (close_pools pools m).is_open p ≡ false
unfolding close_pools close_pool
close_pools-opens_nothing [] m p h = h
close_pools-opens_nothing ((id, q) ∷ pools) m p h =
    close_pools-opens_nothing pools (close_pool q m) p (ground arith)

close_pools-closes :
    (pools : List (Text × ℕ)) (m : Manager) (id : Text) (p : ℕ)
    → lookup id pools ≡ some p
    → (close_pools pools m).is_open p ≡ false
unfolding close_pools close_pool lookup
close_pools-closes [] m id p h = cc
close_pools-closes ((j, q) ∷ pools) m id p h = ground (
  arith,
  close_pools-opens_nothing pools (close_pool q m) p,
  close_pools-closes pools (close_pool q m) id p,
)

close_all-none_open : (m : Manager) → IsSound m → (p : ℕ) → (close_all m).is_open p ≡ false
unfolding close_all
close_all-none_open m v p = elim (Bool-cases (m.is_open p)) [
  | inl o ↦ let r = v.reached p o in close_pools-closes m.pools m r.0 p r.1
  | inr c ↦ close_pools-opens_nothing m.pools m p c
]

close_all-IsSound : (m : Manager) → IsSound m → IsSound (close_all m)
close_all-IsSound m v = record {
  held = λ id p h. unfold close_all lookup in cc;
  reached = λ p h. absurd (cc (close_all-none_open m v p));
  single = λ id j p h k. unfold close_all lookup in cc;
  issued = λ p h. absurd (cc (close_all-none_open m v p));
}

run_one-IsSound : (o : Operation) (m : Manager) → IsSound m → IsSound (run_one o m)
unfolding run_one connect close
run_one-IsSound (connects a b id database) m v =
    connect_found-IsSound (lookup id m.pools) a b id database m v refl
run_one-IsSound (closes id) m v = close_found-IsSound (lookup id m.pools) id m v refl
run_one-IsSound closes_all m v = close_all-IsSound m v

run_from-IsSound : (os : List Operation) (m : Manager) → IsSound m → IsSound (run_all os m)
unfolding run_all
run_from-IsSound [] m v = v
run_from-IsSound (o ∷ os) m v = run_from-IsSound os (run_one o m) (run_one-IsSound o m v)

-- After any run of Connect, Close and CloseAll on a new manager, whatever sql.Open and Ping answer: a
-- pool that the map holds is open, a pool that is open is held, no pool is held for two data sets, and
-- an open pool was handed out before.
pub run_all-IsSound : (os : List Operation) → IsSound (run_all os new_manager)
run_all-IsSound os = run_from-IsSound os new_manager new_manager-IsSound
