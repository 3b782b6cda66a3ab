-- ===== src/Reasoning/Router/Examples.antt =====
-- src/reasoning/router.rs: runs at concrete orders.
use ai_sre.Prelude.{◌+◌, min, ◌≡◌, refl, ◌⊎◌, true, false, none, some, [], ◌∷◌, err, All}
use ai_sre.Reasoning.Budget.{u32_max}
use ai_sre.Reasoning.Router.{
  ProviderRun, ProviderRunState, open_ai, gemini, deep_seek, deterministic, default_order, contains,
  insert, admission, allows, validate, next_default_provider, start_next, start_next_admitted,
}
use ai_sre.Reasoning.Router.Order.{IsNext, start_next_admitted_cases}

abbrev idle : ProviderRunState
idle = record { attempted = []; generation = 0 }

-- the second provider of the order follows the first, with a new generation
second_run :
    (start_next (start_next idle default_order).0 default_order).1
    ≡ some (record { provider = gemini; generation = 2 })
unfolding start_next
second_run = refl

only_deterministic :
    (start_next_admitted idle default_order (admission (deterministic ∷ []))).1
    ≡ some (record { provider = deterministic; generation = 1 })
unfolding start_next_admitted admission
only_deterministic = refl

after_two : next_default_provider (open_ai ∷ gemini ∷ []) ≡ some deep_seek
unfolding next_default_provider
after_two = refl

duplicate_refused :
    validate (record { providers = gemini ∷ gemini ∷ [] })
    ≡ err "provider order cannot contain duplicates"
unfolding validate
duplicate_refused = refl

start_next_admitted_cases_example :
    let adm = admission (deterministic ∷ []) in
    ((run : ProviderRun) × (start_next_admitted idle default_order adm ≡ (
      record {
        attempted = insert run.provider idle.attempted;
        generation = min (idle.generation + 1) u32_max;
      },
      some run,
    ))
      × (run.generation ≡ min (idle.generation + 1) u32_max)
      × IsNext idle.attempted default_order adm run.provider)
    ⊎ ((start_next_admitted idle default_order adm ≡ (idle, none))
        × All
            (λ q. (contains idle.attempted q ≡ true) ⊎ (allows adm q ≡ false))
            default_order.providers)
start_next_admitted_cases_example =
    start_next_admitted_cases idle default_order (admission (deterministic ∷ []))
