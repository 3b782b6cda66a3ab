-- ===== src/Reasoning/Router/Order.antt =====
-- src/reasoning/router.rs: about the order and the set of attempted providers.
use ai_sre.Prelude.{
  ℕ, suc, ◌+◌, ◌≤◌, ◌<◌, ◌≡◌, refl, ◌↔◌, ◌⊎◌, inl, inr, Bool, true, false, not, ◌&&◌, ◌++◌,
  find-first, find-none, none, some, List, [], ◌∷◌, ok, arith, length, find, is_empty, All,
  Bool-cases, Option-cases, min, if◌then◌else◌,
}
use ai_sre.Reasoning.Budget.{u32_max}
use ai_sre.Reasoning.Router.{
  ProviderKind, same_provider, contains, insert, collect_into, ProviderOrder, ProviderAdmission,
  ProviderRunState, ProviderRun, allows, validate, next_admitted, start_next_admitted,
}

pub same_provider_iff : (p q : ProviderKind) → (same_provider p q ≡ true) ↔ (p ≡ q)
same_provider_iff p q = ground arith

pub contains_same :
    (s : List ProviderKind) (p q : ProviderKind)
    → same_provider p q ≡ true
    → contains s p ≡ contains s q
contains_same s p q h = rw ((same_provider_iff p q).0 h)

pub contains-insert :
    (s : List ProviderKind) (p q : ProviderKind)
    → contains (insert p s) q ≡ (if same_provider p q then true else contains s q)
contains-insert s p q = ground (arith, contains_same s p q)

-- Every provider of the list is new: it is not in the list behind it.
abbrev pub Distinct : List ProviderKind → Type 0
Distinct [] = Unit
Distinct (p ∷ ps) = (contains ps p ≡ false) × Distinct ps

-- how many providers of the order have not been attempted
abbrev pub remaining : List ProviderKind → List ProviderKind → ℕ
remaining attempted [] = 0
remaining attempted (p ∷ ps) = (if contains attempted p then 0 else 1) + remaining attempted ps

pub remaining-insert-le :
    (s : List ProviderKind) (p : ProviderKind) (ps : List ProviderKind)
    → remaining (insert p s) ps ≤ remaining s ps
remaining-insert-le s p [] = omega arith
remaining-insert-le s p (q ∷ ps) = ground (arith, contains-insert s p q, remaining-insert-le s p ps)

pub remaining-insert :
    (s : List ProviderKind) (p : ProviderKind) (ps : List ProviderKind)
    → contains s p ≡ false
    → contains ps p ≡ true
    → remaining (insert p s) ps < remaining s ps
remaining-insert s p [] new h = cc
remaining-insert s p (q ∷ ps) new h = ground (
  arith,
  contains-insert s p q,
  remaining-insert-le s p ps,
  remaining-insert s p ps,
  contains_same s p q,
  same_provider_iff p q,
  same_provider_iff q p,
)

pub contains-find :
    (t : ProviderKind → Bool) (ps : List ProviderKind) (p : ProviderKind)
    → find t ps ≡ some p
    → contains ps p ≡ true
contains-find t [] p h = cc
contains-find t (q ∷ ps) p h = ground (arith, contains-find t ps p, (same_provider_iff q p).1)

contains-collect_into :
    (s ps : List ProviderKind) (q : ProviderKind)
    → contains s q ≡ true
    → contains (collect_into s ps) q ≡ true
contains-collect_into s [] q h = h
contains-collect_into s (p ∷ ps) q h =
    contains-collect_into (insert p s) ps q (ground (arith, contains-insert s p q))

-- no provider of the list is in the set
abbrev pub Fresh : List ProviderKind → List ProviderKind → Type 0
Fresh s [] = Unit
Fresh s (p ∷ ps) = (contains s p ≡ false) × Fresh s ps

length-collect_into-le :
    (s ps : List ProviderKind) → length (collect_into s ps) ≤ length s + length ps
length-collect_into-le s [] = omega arith
length-collect_into-le s (p ∷ ps) = ground (arith, length-collect_into-le (insert p s) ps)

Fresh-cons :
    (s : List ProviderKind) (p : ProviderKind) (ps : List ProviderKind)
    → Fresh s ps
    → contains ps p ≡ false
    → Fresh (p ∷ s) ps
Fresh-cons s p [] f h = tt
Fresh-cons s p (q ∷ ps) f h = (
  ground (arith, same_provider_iff p q, same_provider_iff q p),
  Fresh-cons s p ps f.1 (ground arith),
)

Fresh-tail :
    (s : List ProviderKind) (p : ProviderKind) (ps : List ProviderKind)
    → Fresh (p ∷ s) ps
    → Fresh s ps × (contains ps p ≡ false)
Fresh-tail s p [] f = (tt, refl)
Fresh-tail s p (q ∷ ps) f =
    let rest = Fresh-tail s p ps f.1 in
    ((ground arith, rest.0), ground (arith, same_provider_iff p q, same_provider_iff q p))

collect_of_Distinct :
    (s ps : List ProviderKind)
    → Fresh s ps
    → Distinct ps
    → length (collect_into s ps) ≡ length s + length ps
collect_of_Distinct s [] f d = omega arith
collect_of_Distinct s (p ∷ ps) f d =
    rw f.0 (omega (arith, collect_of_Distinct (p ∷ s) ps (Fresh-cons s p ps f.1 d.0) d.1))

Distinct-of_collect :
    (s ps : List ProviderKind)
    → length (collect_into s ps) ≡ length s + length ps
    → Fresh s ps × Distinct ps
Distinct-of_collect s [] h = (tt, tt)
Distinct-of_collect s (p ∷ ps) h = elim (Bool-cases (contains s p)) [
  | inl old ↦ absurd (omega (arith, length-collect_into-le s ps, rw old at h))
  | inr new ↦
      let g : length (collect_into (p ∷ s) ps) ≡ length s + suc (length ps) = rw new at h in
      let rest = Distinct-of_collect (p ∷ s) ps (omega arith) in
      let split = Fresh-tail s p ps rest.0 in ((new, split.0), (split.1, rest.1))
]

Fresh-nil : (ps : List ProviderKind) → Fresh [] ps
Fresh-nil [] = tt
Fresh-nil (p ∷ ps) = (refl, Fresh-nil ps)

-- An order is accepted exactly if it names a provider and names none twice.
pub validate_iff :
    (order : ProviderOrder)
    → (validate order ≡ ok tt) ↔ ((is_empty order.providers ≡ false) × Distinct order.providers)
unfolding validate
validate_iff order = (
  λ h. (ground arith, (Distinct-of_collect [] order.providers (ground arith)).1),
  λ (e, d).
      rw (e, collect_of_Distinct [] order.providers (Fresh-nil order.providers) d) (ground arith),
)

-- The provider is the first of the order that is admitted and not attempted.
pub record IsNext (attempted : List ProviderKind) (order : ProviderOrder) (adm : ProviderAdmission)
    (p : ProviderKind) : Type 0 where
  pub before : List ProviderKind
  pub after : List ProviderKind
  pub position : order.providers ≡ before ++ p ∷ after
  pub skipped : All (λ q. (contains attempted q ≡ true) ⊎ (allows adm q ≡ false)) before
  pub fresh : contains attempted p ≡ false
  pub admitted : allows adm p ≡ true

skipped_of_tests :
    (attempted : List ProviderKind) (adm : ProviderAdmission) (ps : List ProviderKind)
    → All (λ q. (not (contains attempted q) && allows adm q) ≡ false) ps
    → All (λ q. (contains attempted q ≡ true) ⊎ (allows adm q ≡ false)) ps
skipped_of_tests attempted adm [] h = tt
skipped_of_tests attempted adm (q ∷ ps) h = (ground arith, skipped_of_tests attempted adm ps h.1)

pub next_admitted-IsNext :
    (attempted : List ProviderKind) (order : ProviderOrder) (adm : ProviderAdmission)
    (p : ProviderKind)
    → next_admitted attempted order adm ≡ some p
    → IsNext attempted order adm p
unfolding next_admitted
next_admitted-IsNext attempted order adm p h =
    let (before, after, position, skipped, passed) = find-first _ order.providers p h in
    record {
      before = before;
      after = after;
      position = position;
      skipped = skipped_of_tests attempted adm before skipped;
      fresh = ground arith;
      admitted = ground arith;
    }

pub next_admitted-none :
    (attempted : List ProviderKind) (order : ProviderOrder) (adm : ProviderAdmission)
    → next_admitted attempted order adm ≡ none
    → All (λ q. (contains attempted q ≡ true) ⊎ (allows adm q ≡ false)) order.providers
unfolding next_admitted
next_admitted-none attempted order adm h =
    skipped_of_tests attempted adm order.providers (find-none _ order.providers h)

contains_next :
    (attempted : List ProviderKind) (order : ProviderOrder) (adm : ProviderAdmission)
    (p : ProviderKind)
    → next_admitted attempted order adm ≡ some p
    → contains order.providers p ≡ true
unfolding next_admitted
contains_next attempted order adm p h = contains-find _ order.providers p h

pub next_admitted-remaining :
    (attempted : List ProviderKind) (order : ProviderOrder) (adm : ProviderAdmission)
    (p : ProviderKind)
    → next_admitted attempted order adm ≡ some p
    → remaining (insert p attempted) order.providers < remaining attempted order.providers
next_admitted-remaining attempted order adm p h =
    remaining-insert attempted p order.providers
      (next_admitted-IsNext attempted order adm p h).fresh (contains_next attempted order adm p h)

-- A started run is the first admitted provider of the order that was not attempted, it becomes
-- attempted, and the generation goes up (until the largest `u32`); or else no run is started, nothing
-- changes, and every provider of the order was attempted or is not admitted.
pub start_next_admitted_cases :
    (s : ProviderRunState) (order : ProviderOrder) (adm : ProviderAdmission)
    → ((run : ProviderRun) × (start_next_admitted s order adm ≡ (
      record {
        attempted = insert run.provider s.attempted;
        generation = min (s.generation + 1) u32_max;
      },
      some run,
    ))
        × (run.generation ≡ min (s.generation + 1) u32_max)
        × IsNext s.attempted order adm run.provider)
      ⊎ ((start_next_admitted s order adm ≡ (s, none))
          × All (λ q. (contains s.attempted q ≡ true) ⊎ (allows adm q ≡ false)) order.providers)
unfolding start_next_admitted
start_next_admitted_cases s order adm = elim (Option-cases (next_admitted s.attempted order adm)) [
  | inl h ↦ inr (cc h, next_admitted-none s.attempted order adm h)
  | inr (p, h) ↦ inl (
    record { provider = p; generation = min (s.generation + 1) u32_max },
    rw h,
    refl,
    next_admitted-IsNext s.attempted order adm p h,
  )
]
