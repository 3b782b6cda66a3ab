-- ===== src/Reasoning/Roles.antt =====
-- src/reasoning/roles.rs: the fixed sequence of the reasoning roles.
pub mod Sequence
use ai_sre.Prelude.{Bool, true, false, Option, none, some, Result, ok, err}

pub data ReasoningRole : Type 0 where
  investigator diagnostician planner critic : ReasoningRole

pub record RoleGraph : Type 0 where
  pub next : Option ReasoningRole

pub data RoleError : Type 0 where
  complete : RoleError

abbrev pub new : RoleGraph
new = record { next = some investigator }

abbrev pub successor : ReasoningRole → Option ReasoningRole
successor investigator = some diagnostician
successor diagnostician = some planner
successor planner = some critic
successor critic = none

unfoldable pub advance : RoleGraph → RoleGraph × Result RoleError ReasoningRole
advance g = elim g.next [
  | none ↦ (g, err complete)
  | some role ↦ (record { next = successor role }, ok role)
]

unfoldable pub is_complete : RoleGraph → Bool
is_complete g = elim g.next [ none ↦ true | some _ ↦ false ]
