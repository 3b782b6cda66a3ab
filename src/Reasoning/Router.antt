-- ===== src/Reasoning/Router.antt =====
-- src/reasoning/router.rs: the provider order and its fallback. A `BTreeSet` is a list without
-- repetitions: the code asks it for membership and for its size, and never for an order.
pub mod Order
mod Examples
use Prim.Native.String.{String}
use ai_sre.Prelude.{
  ℕ, zero, suc, ◌+◌, Bool, true, false, not, ◌&&◌, ◌||◌, Option, none, some, List, [], ◌∷◌, Result,
  ok, err, length, find, is_empty, ◌==◌, if◌then◌else◌,
}
use ai_sre.Reasoning.Budget.{saturating_add_u32}

pub data ProviderKind : Type 0 where
  open_ai gemini deep_seek deterministic : ProviderKind

-- the derived order of the enum
abbrev pub rank : ProviderKind → ℕ
rank open_ai = 0
rank gemini = 1
rank deep_seek = 2
rank deterministic = 3

abbrev pub same_provider : ProviderKind → ProviderKind → Bool
same_provider p q = rank p == rank q

abbrev pub contains : List ProviderKind → ProviderKind → Bool
contains [] p = false
contains (q ∷ s) p = same_provider q p || contains s p

abbrev pub insert : ProviderKind → List ProviderKind → List ProviderKind
insert p s = if contains s p then s else p ∷ s

-- `collect::<BTreeSet<_>>`
abbrev pub collect_into : List ProviderKind → List ProviderKind → List ProviderKind
collect_into s [] = s
collect_into s (p ∷ ps) = collect_into (insert p s) ps

pub record ProviderOrder : Type 0 where
  pub providers : List ProviderKind

pub record ProviderRun : Type 0 where
  pub provider : ProviderKind
  pub generation : ℕ

pub record ProviderRunState : Type 0 where
  pub attempted : List ProviderKind
  pub generation : ℕ

pub record ProviderAdmission : Type 0 where
  pub admitted : List ProviderKind

-- `ProviderAdmission::new`
unfoldable pub admission : List ProviderKind → ProviderAdmission
admission ps = record { admitted = collect_into [] ps }

unfoldable pub allows : ProviderAdmission → ProviderKind → Bool
allows a p = contains a.admitted p

-- `ProviderOrder::default`
abbrev pub default_order : ProviderOrder
default_order = record { providers = open_ai ∷ gemini ∷ deep_seek ∷ deterministic ∷ [] }

unfoldable pub validate : ProviderOrder → Result String (Unit {0})
validate order =
    if is_empty order.providers
    then err "provider order cannot be empty"
    else if length (collect_into [] order.providers) == length order.providers
    then ok tt
    else err "provider order cannot contain duplicates"

unfoldable pub next_provider_in : List ProviderKind → ProviderOrder → Option ProviderKind
next_provider_in attempted order = find (λ p. not (contains attempted p)) order.providers

-- `next_provider`
unfoldable pub next_default_provider : List ProviderKind → Option ProviderKind
unfolding next_provider_in
next_default_provider attempted = next_provider_in attempted default_order

-- the search of `start_next_admitted` and of the coordinator
unfoldable pub next_admitted :
    List ProviderKind → ProviderOrder → ProviderAdmission → Option ProviderKind
unfolding allows
next_admitted attempted order adm =
    find (λ p. not (contains attempted p) && allows adm p) order.providers

begin_run : ProviderRunState → Option ProviderKind → ProviderRunState × Option ProviderRun
begin_run s none = (s, none)
begin_run s (some p) =
    let generation = saturating_add_u32 s.generation 1 in
    (
      record { attempted = insert p s.attempted; generation = generation },
      some (record { provider = p; generation = generation }),
    )

unfoldable pub start_next : ProviderRunState → ProviderOrder → ProviderRunState × Option ProviderRun
unfolding begin_run next_provider_in
start_next s order = begin_run s (next_provider_in s.attempted order)

unfoldable pub start_next_admitted :
    ProviderRunState → ProviderOrder → ProviderAdmission → ProviderRunState × Option ProviderRun
unfolding begin_run next_admitted
start_next_admitted s order adm = begin_run s (next_admitted s.attempted order adm)
