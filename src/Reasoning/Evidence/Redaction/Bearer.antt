-- ===== src/Reasoning/Evidence/Redaction/Bearer.antt =====
-- src/reasoning/evidence.rs: about the bearer tokens that `redact_text` hides.
use ai_sre.Prelude.{
  ℕ, ◌≡◌, refl, sym, ap, ◌∙◌, Bool, true, false, not, Option, none, some, List, [], ◌∷◌, ◌++◌,
  length, drop, map, arith, All, Text, text, is_whitespace,
}
use ai_sre.Reasoning.Evidence.Redaction.{
  starts_with, matches_key, find_key, keys, lower, is_boundary, last_or, mark, hide_token,
  hide_bearer, round, round_by, sensitive_assignment, bearer_prefix, Round, prefixed,
}
use ai_sre.Reasoning.Evidence.Redaction.Ends.{redact_at, redact_at-round}
use ai_sre.Reasoning.Evidence.Redaction.Pieces.{
  clash, clash_excludes, starts_with_of-lower, StopsAt, span-append, take-append, drop-append,
  length-lower, no_start, redact_at-no_start,
}

clashing-not_found :
    (ks : List (Text × Bool)) (k t : Text)
    → All (λ l. clash l.0 k ≡ true) ks
    → starts_with k t ≡ true
    → find_key ks t ≡ none
unfolding find_key matches_key
clashing-not_found [] k t h e = refl
clashing-not_found ((l, auth) ∷ ks) k t h e =
    rw (clash_excludes l k t h.0 e, clashing-not_found ks k t h.1 e) refl

redact_at-bearer :
    (before : Option ℕ) (n : ℕ) (t : Text)
    → sensitive_assignment before t ≡ none
    → bearer_prefix before t ≡ some n
    → let r = hide_bearer before n t in redact_at before t ≡ r.written ++ redact_at r.before r.rest
redact_at-bearer before n [] h k = absurd (unfold bearer_prefix starts_with in ground arith)
redact_at-bearer before n (c ∷ t) h k =
    redact_at-round before c t
    ∙ ap (λ (r : Round). r.written ++ redact_at r.before r.rest)
        (unfold round round_by in rw (h, k) refl)

hide_token-whole :
    (before : Option ℕ) (v : ℕ) (token rest : Text)
    → All (λ c. not (is_whitespace c) ≡ true) (v ∷ token)
    → StopsAt (λ c. not (is_whitespace c)) rest
    → hide_token before (v ∷ (token ++ rest))
      ≡ record { written = mark; before = last_or before (v ∷ token); rest = rest }
unfolding hide_token
hide_token-whole before v token rest h e =
    rw (span-append (λ c. not (is_whitespace c)) (v ∷ token) rest h e) refl

blank-no_start :
    (t : Text) → StopsAt (λ c. not (is_whitespace c)) t → StopsAt (λ c. not (no_start c)) t
blank-no_start [] h = tt
blank-no_start (c ∷ t) h = ground arith

module _ (bearer : Text) (s : ℕ) (space : Text) (named : map lower bearer ≡ text "bearer")
    (spaced : All (λ c. is_whitespace c ≡ true) (s ∷ space)) where
  bearer-starts : (t : Text) → starts_with (text "bearer") (bearer ++ t) ≡ true
  bearer-starts t = rw named at (starts_with_of-lower bearer t)

  six : length bearer ≡ 6
  six = sym (rw named at (length-lower bearer))

  bearer-not_key : (before : Option ℕ) (t : Text) → sensitive_assignment before (bearer ++ t) ≡ none
  unfolding sensitive_assignment
  bearer-not_key before t =
      let k =
        clashing-not_found keys (text "bearer") (bearer ++ t) (ground arith) (bearer-starts t) in
      ground (arith, k)

  bearer-found :
      (before : Option ℕ) (t : Text)
      → is_boundary before ≡ true
      → bearer_prefix before (bearer ++ (s ∷ space ++ t)) ≡ some 6
  unfolding bearer_prefix
  bearer-found before t b =
      let d : drop 6 (bearer ++ (s ∷ space ++ t)) ≡ s ∷ space ++ t =
        ap (λ n. drop n (bearer ++ (s ∷ space ++ t))) (sym six)
        ∙ drop-append bearer (s ∷ space ++ t) in
      rw (b, bearer-starts (s ∷ space ++ t), d, spaced.0) refl

  hide_bearer-found :
      (before : Option ℕ) (t : Text)
      → StopsAt is_whitespace t
      → let copied = bearer ++ s ∷ space in
        hide_bearer before 6 (bearer ++ (s ∷ space ++ t))
        ≡ prefixed copied (hide_token (last_or before copied) t)
  unfolding hide_bearer
  hide_bearer-found before t e = rw (← six) (
      rw
        (
          drop-append bearer (s ∷ space ++ t),
          take-append bearer (s ∷ space ++ t),
          span-append is_whitespace (s ∷ space) t spaced e,
        )
        refl)

  -- Where the loop of `redact_text` stands at "bearer" in any letter case, not behind a letter or a
  -- digit, with white space behind it, the token that follows up to the next white space is
  -- replaced by the mark, and nothing of it shows in what is written from there on.
  pub redact_at-hides_token :
      (before : Option ℕ) (v : ℕ) (token rest : Text)
      → is_boundary before ≡ true
      → All (λ c. not (is_whitespace c) ≡ true) (v ∷ token)
      → StopsAt (λ c. not (is_whitespace c)) rest
      → redact_at before (bearer ++ (s ∷ space ++ (v ∷ (token ++ rest))))
        ≡ bearer ++ s ∷ space ++ mark ++ redact_at none rest
  redact_at-hides_token before v token rest b h e =
      let copied = bearer ++ s ∷ space in
      let t = v ∷ (token ++ rest) in
      let v_stops : is_whitespace v ≡ false = ground (arith, h.0) in
      redact_at-bearer before 6 (bearer ++ (s ∷ space ++ t))
        (bearer-not_key before (s ∷ space ++ t)) (bearer-found before t b)
      ∙ ap (λ (r : Round). r.written ++ redact_at r.before r.rest)
          (hide_bearer-found before t v_stops
            ∙ ap (prefixed copied) (hide_token-whole (last_or before copied) v token rest h e))
      ∙ ap (λ (u : Text). copied ++ mark ++ u)
          (redact_at-no_start _ none rest (blank-no_start rest e))
