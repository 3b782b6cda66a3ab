-- ===== src/Reasoning/Roles/Sequence.antt =====
-- src/reasoning/roles.rs: about the calls of advance on a fresh graph.
use ai_sre.Prelude.{
  ℕ, zero, suc, ◌≡◌, refl, ap, sym, none, List, [], ◌∷◌, ok, err, leb, take, arith,
}
use ai_sre.Reasoning.Roles.{
  ReasoningRole, RoleGraph, investigator, diagnostician, planner, critic, new, advance, is_complete,
}

-- the roles that n calls of `advance` return, and the graph behind them
unfoldable pub roles : ℕ → RoleGraph → List ReasoningRole
roles zero g = []
roles (suc n) g =
    let rest = roles n (advance g).0 in elim (advance g).1 [ ok role ↦ role ∷ rest | err _ ↦ rest ]

unfoldable pub after : ℕ → RoleGraph → RoleGraph
after zero g = g
after (suc n) g = after n (advance g).0

roles_of_complete : (n : ℕ) → roles n (record { next = none }) ≡ []
unfolding roles advance
roles_of_complete zero = refl
roles_of_complete (suc n) = roles_of_complete n

after_complete : (n : ℕ) → after n (record { next = none }) ≡ record { next = none }
unfolding after advance
after_complete zero = refl
after_complete (suc n) = after_complete n

take_nil : (n : ℕ) → ◌≡◌ {A = List ReasoningRole} (take n []) []
take_nil zero = refl
take_nil (suc n) = refl

-- However often a fresh graph is advanced, the roles that it returns are the first of the four, in
-- their order and each once, and it is complete exactly from the fourth call on.
pub roles_in_order :
    (n : ℕ)
    → (roles n new ≡ take n (investigator ∷ diagnostician ∷ planner ∷ critic ∷ []))
      × (is_complete (after n new) ≡ leb 4 n)
unfolding roles after advance is_complete
roles_in_order zero = (refl, refl)
roles_in_order (suc zero) = (refl, refl)
roles_in_order (suc (suc zero)) = (refl, refl)
roles_in_order (suc (suc (suc zero))) = (refl, refl)
roles_in_order (suc (suc (suc (suc n)))) = (
  ap (λ rest. investigator ∷ diagnostician ∷ planner ∷ critic ∷ rest)
      (rw (roles_of_complete n) (sym (take_nil n))),
  rw (after_complete n) (ground arith),
)
