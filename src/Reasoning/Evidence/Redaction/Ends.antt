-- ===== src/Reasoning/Evidence/Redaction/Ends.antt =====
-- src/reasoning/evidence.rs: about the rounds of `redact_text`.
use ai_sre.Prelude.{
  ℕ, suc, zero, ◌≤◌, ◌<◌, ◌≡◌, refl, ap, Bool, false, Option, none, some, List, [], ◌∷◌, ◌++◌, not,
  ◌==◌, length, drop, is_empty, arith, All, Text, is_whitespace,
}
use ai_sre.Reasoning.Evidence.Redaction.{
  span, split_separator, hide_value, hide_assignment, hide_token, hide_bearer, round_by, round,
  sensitive_assignment, bearer_prefix, find_key, keys, redact_from, ends_value,
}

span-le : (p : ℕ → Bool) (t : Text) → length (span p t).1 ≤ length t
unfolding span
span-le p [] = omega arith
span-le p (c ∷ t) = ground (arith, span-le p t)

drop-lt : (n : ℕ) (c : ℕ) (t : Text) → 0 < n → length (drop n (c ∷ t)) ≤ length t
drop-lt zero c t h = elim h [ ]
drop-lt (suc zero) c t h = omega arith
drop-lt (suc (suc n)) c [] h = omega arith
drop-lt (suc (suc n)) c (d ∷ t) h = omega (arith, drop-lt (suc n) d t (omega arith))

split-le : (t : Text) → length (split_separator t).1 ≤ length t
unfolding split_separator
split-le [] = omega arith
split-le (c ∷ t) = ground arith

hide_value-le :
    (before : Option ℕ) (auth : Bool) (t : Text) → length (hide_value before auth t).rest ≤ length t
unfolding hide_value
hide_value-le before auth [] = omega arith
hide_value-le before auth (q ∷ t) = ground (
  arith,
  span-le (λ (c : ℕ). not (c == q)) t,
  span-le (λ (c : ℕ). not (ends_value auth c)) (q ∷ t),
)

hide_token-le : (before : Option ℕ) (t : Text) → length (hide_token before t).rest ≤ length t
unfolding hide_token
hide_token-le before [] = omega arith
hide_token-le before (c ∷ t) = span-le (λ (d : ℕ). not (is_whitespace d)) (c ∷ t)

find_key_pos :
    (ks : List (Text × Bool)) (t : Text) (n : ℕ) (auth : Bool)
    → All (λ k. is_empty k.0 ≡ false) ks
    → find_key ks t ≡ some (n, auth)
    → 0 < n
unfolding find_key
find_key_pos [] t n auth h e = cc
find_key_pos (([], a) ∷ ks) t n auth h e = absurd (cc h.0)
find_key_pos ((c ∷ k, a) ∷ ks) t n auth h e = ground (arith, find_key_pos ks t n auth h.1)

assignment_pos :
    (before : Option ℕ) (t : Text) (n : ℕ) (auth : Bool)
    → sensitive_assignment before t ≡ some (n, auth)
    → 0 < n
unfolding sensitive_assignment
assignment_pos before t n auth e = ground (arith, find_key_pos keys t n auth (ground arith))

bearer_pos : (before : Option ℕ) (t : Text) (n : ℕ) → bearer_prefix before t ≡ some n → 0 < n
unfolding bearer_prefix
bearer_pos before t n e = ground arith

hide_assignment-le :
    (before : Option ℕ) (n : ℕ) (auth : Bool) (c : ℕ) (t : Text)
    → 0 < n
    → length (hide_assignment before n auth (c ∷ t)).rest ≤ length t
unfolding hide_assignment
hide_assignment-le before n auth c t h =
    let at_separator = (span is_whitespace (drop n (c ∷ t))).1 in
    let behind = (split_separator at_separator).1 in
    let value = (span is_whitespace behind).1 in
    omega (
      arith,
      hide_value-le _ auth value,
      span-le is_whitespace behind,
      split-le at_separator,
      span-le is_whitespace (drop n (c ∷ t)),
      drop-lt n c t h,
    )

hide_bearer-le :
    (before : Option ℕ) (n : ℕ) (c : ℕ) (t : Text)
    → 0 < n
    → length (hide_bearer before n (c ∷ t)).rest ≤ length t
unfolding hide_bearer
hide_bearer-le before n c t h =
    let token = (span is_whitespace (drop n (c ∷ t))).1 in
    omega (arith, hide_token-le _ token, span-le is_whitespace (drop n (c ∷ t)), drop-lt n c t h)

round_by-le :
    (found : Option (ℕ × Bool)) (bearer before : Option ℕ) (c : ℕ) (t : Text)
    → ((n : ℕ) (auth : Bool) → found ≡ some (n, auth) → 0 < n)
    → ((n : ℕ) → bearer ≡ some n → 0 < n)
    → length (round_by found bearer before c t).rest ≤ length t
unfolding round_by
round_by-le (some (n, auth)) bearer before c t f b =
    hide_assignment-le before n auth c t (f n auth refl)
round_by-le none (some n) before c t f b = hide_bearer-le before n c t (b n refl)
round_by-le none none before c t f b = omega arith

pub round-le : (before : Option ℕ) (c : ℕ) (t : Text) → length (round before c t).rest ≤ length t
unfolding round
round-le before c t =
    round_by-le _ _ before c t (assignment_pos before (c ∷ t)) (bearer_pos before (c ∷ t))

-- the loop from a place on
unfoldable pub redact_at : Option ℕ → Text → Text
redact_at before t = redact_from (length t) before t

enough :
    (f g : ℕ) (before : Option ℕ) (t : Text)
    → length t ≤ f
    → length t ≤ g
    → redact_from f before t ≡ redact_from g before t
unfolding redact_from
enough zero zero before t h k = refl
enough zero (suc g) before [] h k = refl
enough zero (suc g) before (c ∷ t) h k = elim h [ ]
enough (suc f) zero before [] h k = refl
enough (suc f) zero before (c ∷ t) h k = elim k [ ]
enough (suc f) (suc g) before [] h k = refl
enough (suc f) (suc g) before (c ∷ t) h k =
    let r = round before c t in
    let le = round-le before c t in
    ap (◌++◌ r.written) (enough f g r.before r.rest (omega arith) (omega arith))

-- The loop of `redact_text` ends, since each round passes at least one character: with at least as
-- much fuel as there are characters it writes what the round at hand writes, and goes on from
-- where that round stands, in a rest that is shorter, with nothing cut off.
pub redact_from-Ends :
    (fuel : ℕ) (before : Option ℕ) (c : ℕ) (t : Text)
    → length (c ∷ t) ≤ fuel
    → let r = round before c t in
      (redact_from fuel before (c ∷ t) ≡ r.written ++ redact_at r.before r.rest)
      × (length r.rest < length (c ∷ t))
unfolding redact_from redact_at
redact_from-Ends zero before c t h = elim h [ ]
redact_from-Ends (suc fuel) before c t h =
    let r = round before c t in
    let le = round-le before c t in
    (
      ap (◌++◌ r.written) (enough fuel (length r.rest) r.before r.rest (omega arith) (omega arith)),
      omega arith,
    )

pub redact_at-round :
    (before : Option ℕ) (c : ℕ) (t : Text)
    → let r = round before c t in redact_at before (c ∷ t) ≡ r.written ++ redact_at r.before r.rest
redact_at-round before c t =
    unfold redact_at in (redact_from-Ends (length (c ∷ t)) before c t (omega arith)).0
