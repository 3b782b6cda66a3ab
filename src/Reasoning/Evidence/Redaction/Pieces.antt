-- ===== src/Reasoning/Evidence/Redaction/Pieces.antt =====
-- src/reasoning/evidence.rs: about the pieces of a text that a round passes.
use ai_sre.Prelude.{
  ℕ, suc, zero, ◌≡◌, refl, sym, ap, ◌∙◌, inl, inr, Bool, true, false, not, ◌&&◌, Option, none, some,
  List, [], ◌∷◌, ◌++◌, length, leb, text, take, drop, map, arith, ◌==◌, Bool-cases, All, get_elem?,
  ◌||◌, Text, is_whitespace,
}
use ai_sre.Reasoning.Evidence.Redaction.{
  span, starts_with, matches_key, find_key, keys, lower, is_separator, is_quote, is_boundary,
  last_or, ends_value, mark, split_separator, hide_value, round, round_by, sensitive_assignment,
  bearer_prefix, redact_from, Round,
}
use ai_sre.Reasoning.Evidence.Redaction.Ends.{redact_at, redact_at-round}

-- `t` stands where the first test that fails stops `span`
abbrev pub StopsAt : (ℕ → Bool) → Text → Type 0
StopsAt p [] = Unit
StopsAt p (c ∷ t) = p c ≡ false

pub span-append :
    (p : ℕ → Bool) (s t : Text) → All (λ c. p c ≡ true) s → StopsAt p t → span p (s ++ t) ≡ (s, t)
unfolding span
span-append p [] [] h e = refl
span-append p [] (c ∷ t) h e = ground arith
span-append p (c ∷ s) t h e = ground (arith, h.0, span-append p s t h.1 e)

pub drop-append : (s t : Text) → drop (length s) (s ++ t) ≡ t
drop-append [] t = refl
drop-append (c ∷ s) t = drop-append s t

pub take-append : (s t : Text) → take (length s) (s ++ t) ≡ s
take-append [] t = refl
take-append (c ∷ s) t = ap (◌∷◌ c) (take-append s t)

pub starts_with_of-lower : (key t : Text) → starts_with (map lower key) (key ++ t) ≡ true
unfolding starts_with
starts_with_of-lower [] t = refl
starts_with_of-lower (c ∷ key) t = ground (arith, starts_with_of-lower key t)

-- the two patterns differ at a place that both have
abbrev pub clash : Text → Text → Bool
clash [] t = false
clash (a ∷ s) [] = false
clash (a ∷ s) (b ∷ t) = not (a == b) || clash s t

pub clash_excludes :
    (s k t : Text) → clash s k ≡ true → starts_with k t ≡ true → starts_with s t ≡ false
unfolding starts_with
clash_excludes [] k t h e = cc
clash_excludes (a ∷ s) [] t h e = cc
clash_excludes (a ∷ s) (b ∷ k) [] h e = cc
clash_excludes (a ∷ s) (b ∷ k) (c ∷ t) h e = ground (arith, clash_excludes s k t)

abbrev pub AllClash : List (Text × Bool) → Type 0
AllClash [] = Unit
AllClash (k ∷ ks) = All (λ l. clash k.0 l.0 ≡ true) ks × AllClash ks

pub keys-AllClash : AllClash keys
keys-AllClash = ground arith

pub All-at :
    {A : Type 0} (P : A → Type 0) (xs : List A) (i : ℕ) (x : A)
    → All P xs
    → get_elem? xs i ≡ some x
    → P x
All-at P [] i x h e = cc
All-at P (y ∷ xs) zero x h e = ground (arith, ap P)
All-at P (y ∷ xs) (suc i) x h e = All-at P xs i x h.1 e

-- the key that stands at a place is the one that is found there
pub find_key_at :
    (ks : List (Text × Bool)) (i : ℕ) (k t : Text) (auth : Bool)
    → AllClash ks
    → get_elem? ks i ≡ some (k, auth)
    → matches_key k t ≡ true
    → find_key ks t ≡ some (length k, auth)
unfolding find_key
find_key_at [] i k t auth f e m = cc
find_key_at ((l, b) ∷ ks) zero k t auth f e m = ground arith
find_key_at ((l, b) ∷ ks) (suc i) k t auth f e m =
    let excluded =
      clash_excludes l k t
        (All-at (λ (m : Text × Bool). clash l m.0 ≡ true) ks i (k, auth) f.0 e) in
    unfold matches_key in ground (arith, find_key_at ks i k t auth f.1 e, excluded)

pub length-lower : (t : Text) → length (map lower t) ≡ length t
length-lower [] = refl
length-lower (c ∷ t) = omega (arith, length-lower t)

pub split_at : (c : ℕ) (t : Text) → is_separator c ≡ true → split_separator (c ∷ t) ≡ (c ∷ [], t)
unfolding split_separator
split_at c t h = ground arith

-- Neither a key nor "bearer" begins with such a character.
abbrev pub no_start : ℕ → Bool
no_start c = is_whitespace c || c == b',' || c == b'}' || c == b']'

pub no_start-lower : (c : ℕ) → no_start c ≡ true → (leb 97 (lower c) && leb (lower c) 122) ≡ false
no_start-lower c h = ground arith

-- the pattern begins with a letter of lower case
abbrev pub begins_with_letter : Text → Bool
begins_with_letter [] = false
begins_with_letter (p ∷ ps) = leb 97 p && leb p 122

pub differ :
    (a p : ℕ) → (leb 97 a && leb a 122) ≡ false → (leb 97 p && leb p 122) ≡ true → (a == p) ≡ false
differ a p h k = ground arith

pub no_start-starts_with :
    (k : Text) (c : ℕ) (t : Text)
    → no_start c ≡ true
    → begins_with_letter k ≡ true
    → starts_with k (c ∷ t) ≡ false
unfolding starts_with
no_start-starts_with [] c t h b = cc
no_start-starts_with (p ∷ ps) c t h b =
    let l = no_start-lower c h in
    let e : (lower c == p) ≡ false = differ (lower c) p l b in rw e refl

pub no_start-find_key :
    (ks : List (Text × Bool)) (c : ℕ) (t : Text)
    → no_start c ≡ true
    → All (λ k. begins_with_letter k.0 ≡ true) ks
    → find_key ks (c ∷ t) ≡ none
unfolding find_key matches_key
no_start-find_key [] c t h b = refl
no_start-find_key ((k, auth) ∷ ks) c t h b =
    rw (no_start-starts_with k c t h b.0, no_start-find_key ks c t h b.1) refl

pub no_start-round :
    (before : Option ℕ) (c : ℕ) (t : Text)
    → no_start c ≡ true
    → round before c t ≡ record { written = c ∷ []; before = some c; rest = t }
unfolding round sensitive_assignment bearer_prefix round_by
no_start-round before c t h =
    let k = no_start-find_key keys c t h (ground arith) in
    let b = no_start-starts_with (text "bearer") c t h refl in
    elim (Bool-cases (is_boundary before)) [ inl e ↦ rw (e, k, b) refl | inr e ↦ rw e refl ]

pub redact_at-cons :
    (before : Option ℕ) (c : ℕ) (t : Text)
    → no_start c ≡ true
    → redact_at before (c ∷ t) ≡ c ∷ redact_at (some c) t
redact_at-cons before c t h =
    redact_at-round before c t
    ∙ ap (λ (r : Round). r.written ++ redact_at r.before r.rest) (no_start-round before c t h)

-- What comes before such a character does not matter to it.
pub redact_at-no_start :
    (before before' : Option ℕ) (t : Text)
    → StopsAt (λ c. not (no_start c)) t
    → redact_at before t ≡ redact_at before' t
redact_at-no_start before before' [] h = unfold redact_at redact_from in refl
redact_at-no_start before before' (c ∷ t) h =
    let n : no_start c ≡ true = ground arith in
    redact_at-cons before c t n ∙ sym (redact_at-cons before' c t n)

pub ends-no_start : (auth : Bool) (c : ℕ) → ends_value auth c ≡ true → no_start c ≡ true
ends-no_start true c h = ground arith
ends-no_start false c h = h

pub StopsAt-ends :
    (auth : Bool) (t : Text)
    → StopsAt (λ c. not (ends_value auth c)) t
    → StopsAt (λ c. not (no_start c)) t
StopsAt-ends auth [] h = tt
StopsAt-ends auth (c ∷ t) h = ground (arith, ends-no_start auth c)

pub hide-unquoted :
    (before : Option ℕ) (auth : Bool) (v : ℕ) (value rest : Text)
    → is_quote v ≡ false
    → All (λ c. not (ends_value auth c) ≡ true) (v ∷ value)
    → StopsAt (λ c. not (ends_value auth c)) rest
    → hide_value before auth (v ∷ value ++ rest)
      ≡ record { written = mark; before = last_or before (v ∷ value); rest = rest }
unfolding hide_value
hide-unquoted before auth v value rest q h e =
    rw (span-append (λ c. not (ends_value auth c)) (v ∷ value) rest h e, q) refl

pub hide-quoted :
    (before : Option ℕ) (auth : Bool) (q : ℕ) (value rest : Text)
    → is_quote q ≡ true
    → All (λ c. not (c == q) ≡ true) value
    → hide_value before auth (q ∷ value ++ q ∷ rest)
      ≡ record { written = q ∷ mark ++ q ∷ []; before = some q; rest = rest }
unfolding hide_value
hide-quoted before auth q value rest h e =
    let same : not (q == q) ≡ false = ground arith in
    rw (span-append (λ c. not (c == q)) value (q ∷ rest) e same, h) refl
