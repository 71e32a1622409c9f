-- ===== src/Handlers.antt =====
-- internal/handlers: what every HTTP handler does with its request and its reply.
pub mod Users
pub mod DataSql
pub mod Upload
pub mod Datasets
pub mod Messages
pub mod Sessions
pub mod Routes
pub mod Knowledge
pub mod Reports
pub mod DataSources
pub mod Tables
use data_flow_agent_hub.Base.{ℕ, Text, List, [], Bool, true, false, ◌≡◌, refl}

-- what `errJSON` and `JSON` write; a body is modelled by the texts of its fields
pub data Reply : Type 0 where
  err_json : ℕ → Text → Reply
  json : ℕ → List (Text × Text) → Reply

module _ {ℓ} {S : Type ℓ} where
  -- an `if` that ends in `errJSON(...); return`, and the rest of the handler behind it
  unfoldable pub guard : Bool → ℕ → Text → S → Reply × S → Reply × S
  guard true status message s rest = (err_json status message, s)
  guard false status message s rest = rest

  -- what the rest of the handler keeps, the handler keeps
  pub guard-keeps {κ} :
      (P : S → Type κ) (b : Bool) (status : ℕ) (message : Text) (s : S) (rest : Reply × S)
      → P s
      → (b ≡ false → P rest.1)
      → P (guard b status message s rest).1
  guard-keeps P true status message s rest keeps next = unfold guard in keeps
  guard-keeps P false status message s rest keeps next = unfold guard in next refl
