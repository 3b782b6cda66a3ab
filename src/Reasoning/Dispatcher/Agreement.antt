-- ===== src/Reasoning/Dispatcher/Agreement.antt =====
-- src/reasoning/dispatcher.rs: the relation between a replayed state and the one in memory.
use ai_sre.Prelude.{
  ℕ, ◌≤◌, ◌≡◌, refl, subst, Bool, Option, none, some, List, [], ◌∷◌, ◌++◌, arith, Text, same_text,
  same_text_iff, inl, inr, Bool-cases,
}
use ai_sre.Prelude.Int.{ℤ, ◌≤ℤ◌}
use ai_sre.Prelude.Map
use ai_sre.Prelude.Map.{Map, get-insert}
use ai_sre.Reasoning.Budget.{u64_max}
use ai_sre.Reasoning.Journal.{JournalEntry}
use ai_sre.Reasoning.Dispatcher.{LifecycleState, firing, resolved, replay, replay_event}

-- a time that is no later than another, where it is known
abbrev pub NotAfter : Option ℤ → Option ℤ → Type 0
NotAfter none _ = Unit
NotAfter (some a) none = ⊥
NotAfter (some a) (some b) = a ≤ℤ b

NotAfter-refl : (t : Option ℤ) → NotAfter t t
NotAfter-refl none = tt
NotAfter-refl (some a) = omega arith

-- The first state is the replayed one. A firing is the same; of a recovery the episode is the same
-- and the replayed time is no later, since a repeated recovery is not replayed.
abbrev pub Agree : Option LifecycleState → Option LifecycleState → Type 0
Agree none none = Unit
Agree (some (firing e c t ms src)) (some (firing e' c' t' ms' src')) =
    (e ≡ e') × (c ≡ c') × (t ≡ t') × (ms ≡ ms') × (src ≡ src') × (e ≤ u64_max)
Agree (some (resolved e _ ms _)) (some (resolved e' _ ms' _)) =
    (e ≡ e') × NotAfter ms ms' × (e ≤ u64_max)
Agree _ _ = ⊥

abbrev pub AgreeMaps : Map LifecycleState → Map LifecycleState → Type 0
AgreeMaps r m = (k : Text) → Agree (Map.get r k) (Map.get m k)

abbrev pub episode_of : LifecycleState → ℕ
episode_of (firing e _ _ _ _) = e
episode_of (resolved e _ _ _) = e

pub Agree-refl : (v : LifecycleState) → episode_of v ≤ u64_max → Agree (some v) (some v)
Agree-refl (firing e c t ms src) h = (refl, refl, refl, refl, refl, h)
Agree-refl (resolved e t ms src) h = (refl, NotAfter-refl ms, h)

-- a state of memory and the replayed one have the same episode, which is within the width
pub episode_bound :
    (r : Option LifecycleState) (v : LifecycleState) → Agree r (some v) → episode_of v ≤ u64_max
episode_bound none v h = absurd h
episode_bound (some (firing _ _ _ _ _)) (firing _ _ _ _ _) h = omega arith
episode_bound (some (firing _ _ _ _ _)) (resolved _ _ _ _) h = absurd h
episode_bound (some (resolved _ _ _ _)) (firing _ _ _ _ _) h = absurd h
episode_bound (some (resolved _ _ _ _)) (resolved _ _ _ _) h = omega arith

pub replayed_firing :
    (r : Option LifecycleState) (e : ℕ) (c : Bool) (t : Text) (ms : Option ℤ) (src : Text)
    → Agree r (some (firing e c t ms src))
    → r ≡ some (firing e c t ms src)
replayed_firing none e c t ms src h = absurd h
replayed_firing (some (resolved _ _ _ _)) e c t ms src h = absurd h
replayed_firing (some (firing _ _ _ _ _)) e c t ms src h = cc

-- a later recovery in memory only
pub recovered_later :
    (r : Option LifecycleState) (e : ℕ) (t t' : Text) (ms ms' : Option ℤ) (src src' : Text)
    → Agree r (some (resolved e t ms src))
    → ((a : ℤ) → ms ≡ some a → NotAfter ms ms')
    → Agree r (some (resolved e t' ms' src'))
recovered_later none e t t' ms ms' src src' h later = absurd h
recovered_later (some (firing _ _ _ _ _)) e t t' ms ms' src src' h later = absurd h
recovered_later (some (resolved _ _ none _)) e t t' ms ms' src src' h later =
    let (same, _, bound) = h in (same, tt, bound)
recovered_later (some (resolved _ _ (some a) _)) e t t' none ms' src src' h later = absurd h.1
recovered_later (some (resolved _ _ (some a) _)) e t t' (some b) none src src' h later =
    absurd (later b refl)
recovered_later (some (resolved _ _ (some a) _)) e t t' (some b) (some c) src src' h later =
    let bc = later b refl in (h.0, omega arith, h.2)

module _ (r m : Map LifecycleState) (key : Text) (agree : AgreeMaps r m) where
  pub Agree-insert :
      (v w : LifecycleState)
      → Agree (some v) (some w)
      → AgreeMaps (Map.insert r key v) (Map.insert m key w)
  Agree-insert v w h k =
      let a = agree k in
      rw (get-insert r key v k, get-insert m key w k)
        (elim (Bool-cases (same_text key k)) [ inl e ↦ rw e h | inr e ↦ rw e a ])

  pub Agree-set :
      (w : LifecycleState) → Agree (Map.get r key) (some w) → AgreeMaps r (Map.insert m key w)
  Agree-set w h k = rw (get-insert m key w k) (elim (Bool-cases (same_text key k)) [
    | inl e ↦ rw e (subst (λ j. Agree (Map.get r j) (some w)) ((same_text_iff key k).0 e) h)
    | inr e ↦ rw e (agree k)
  ])

pub replay_snoc :
    (m : Map LifecycleState) (es : List JournalEntry) (e : JournalEntry)
    → replay m (es ++ e ∷ []) ≡ replay_event (replay m es) e.event
unfolding replay
replay_snoc m [] e = refl
replay_snoc m (x ∷ es) e = replay_snoc (replay_event m x.event) es e
