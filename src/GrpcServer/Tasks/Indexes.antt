-- ===== src/GrpcServer/Tasks/Indexes.antt =====
-- internal/grpcserver/server.go: the index of a new step.
use data_flow_agent_hub.Base.{
  ℕ, ◌<◌, ◌≤◌, Text, same, same_iff, List, [], ◌∷◌, ◌≡◌, arith, if_cases,
}
use data_flow_agent_hub.Async.{Step}
use data_flow_agent_hub.GrpcServer.Tasks.{above, next_index}

above-lt : (i n : ℕ) → i < above i n
unfolding above
above-lt i n = ground arith

above-le : (i n : ℕ) → n ≤ above i n
unfolding above
above-le i n = ground arith

-- each step of the run stands below the index
abbrev pub Below : Text → ℕ → List Step → Type 0
Below run n [] = Unit
Below run n (s ∷ steps) = (s.run_id ≡ run → s.step_index < n) × Below run n steps

Below-le :
    (run : Text) (m n : ℕ) (steps : List Step) → m ≤ n → Below run m steps → Below run n steps
Below-le run m n [] le h = tt
Below-le run m n (s ∷ steps) le (h, hs) =
    (λ e. omega (arith, le, h e), Below-le run m n steps le hs)

-- The index of a new step of a run is above those of all the steps that the run has.
pub next_index-Below : (run : Text) (steps : List Step) → Below run (next_index run steps) steps
unfolding next_index
next_index-Below run [] = tt
next_index-Below run (s ∷ steps) =
    if_cases (λ (n : ℕ). Below run n (s ∷ steps)) (same s.run_id run)
      (above s.step_index (next_index run steps)) (next_index run steps)
      (λ e. (
        λ f. above-lt s.step_index (next_index run steps),
        Below-le run _ _ steps (above-le s.step_index (next_index run steps))
            (next_index-Below run steps),
      ))
      (λ e. (λ f. absurd (cc (e, (same_iff s.run_id run).1 f)), next_index-Below run steps))
