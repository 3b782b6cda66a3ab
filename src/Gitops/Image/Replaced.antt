-- ===== src/Gitops/Image/Replaced.antt =====
-- src/gitops/it_tools_image.rs: about what a rendering changes.
use ai_sre.Prelude.{
  ℕ, zero, suc, ◌+◌, ◌-◌, ◌≤◌, ◌<◌, ◌&&◌, begins_with, trim_end, starts_line, Option-cases, ◌≡◌,
  ◌≢◌, refl, sym, ap, subst, drop, inl, inr, true, false, Option, none, some, List, [], ◌∷◌, Result,
  ok, err, ◌>>=◌, ok_or, any, length, ltb, ◌==◌, ◌*◌, ◌||◌, Text, text, same_text, same_text_refl,
  strip_prefix, lines, utf8, arith, Bool-cases,
}
use ai_sre.Gitops.Receipt.{valid_image}
use ai_sre.Gitops.Image.{
  Yaml, RenderError, unsupported_source, replace_range, scalar_end, is_scalar, replace_scalar,
  replaced, reads_as, trim_spaces, find_comment, split_inclusive, image_lines, accept, render_lines,
  slot, slot_text, set_slot, render_slot, render_read, render,
}

-- the source with one range within it, which is not empty, replaced by the image
pub record IsRange (source image candidate : Text) : Type 0 where
  start : ℕ
  count : ℕ
  not_empty : 0 < count
  inside : start + count ≤ length source
  replaced_there : candidate ≡ replace_range source start count image

abbrev HasRange : Text → Text → Option Text → Type 0
HasRange source image none = Unit
HasRange source image (some candidate) = IsRange source image candidate

trim_spaces-le : (s : Text) → length (trim_spaces s) ≤ length s
unfolding trim_spaces
trim_spaces-le [] = ground arith
trim_spaces-le (c ∷ s) = ground (arith, trim_spaces-le s)

trim_end-le : (s : Text) → length (trim_end s) ≤ length s
unfolding trim_end
trim_end-le [] = ground arith
trim_end-le (c ∷ s) = ground (arith, trim_end-le s)

find_comment-le : (s : Text) (i : ℕ) → find_comment s ≡ some i → i ≤ length s
unfolding find_comment
find_comment-le [] i h = absurd (cc h)
find_comment-le (c ∷ s) i h = elim (Bool-cases (c == 32 && begins_with 35 s)) [
  | inl e ↦ ground (arith, e, h)
  | inr e ↦ elim (Option-cases (find_comment s)) [
    | inl k ↦ absurd (ground (arith, e, h, k))
    | inr (m, k) ↦ let below = find_comment-le s m k in ground (arith, e, h, k, below)
  ]
]

scalar_end-le : (s : Text) → scalar_end s ≤ length s
unfolding scalar_end
scalar_end-le s = elim (Option-cases (find_comment s)) [
  | inl e ↦ rw (e, scalar_end) (trim_end-le s)
  | inr (i, e) ↦ rw (e, scalar_end) (find_comment-le s i e)
]

length-drop : (n : ℕ) (s : Text) → length (drop n s) ≡ length s - n
length-drop zero s = omega arith
length-drop (suc n) [] = ground arith
length-drop (suc n) (c ∷ s) = ground (arith, length-drop n s)

strip_prefix-le :
    (prefix s rest : Text) → strip_prefix prefix s ≡ some rest → length rest ≤ length s
strip_prefix-le [] s rest = λ h. ground (arith, h)
strip_prefix-le (p ∷ prefix) [] rest = λ h. absurd (cc h)
strip_prefix-le (p ∷ prefix) (c ∷ s) rest = elim (Bool-cases (p == c)) [
  | inl e ↦ rw e (λ h. omega (arith, strip_prefix-le prefix s rest h))
  | inr e ↦ rw e (λ h. absurd (cc h))
]

replace_scalar-HasRange :
    (source image : Text) (start : ℕ) (scalar : Text)
    → start + length scalar ≤ length source
    → HasRange source image (replace_scalar source image start scalar)
unfolding replace_scalar
replace_scalar-HasRange source image start scalar fits = elim (Bool-cases (is_scalar scalar)) [
  | inl e ↦
      rw (e, replace_scalar)
        (record {
          start = start;
          count = scalar_end scalar;
          not_empty = ground (arith, e);
          inside = omega (arith, fits, scalar_end-le scalar);
          replaced_there = refl;
        })
  | inr e ↦ rw (e, replace_scalar) tt
]

replaced-HasRange :
    (source image : Text) (offset : ℕ) (line : Text) (rest : Option Text)
    → offset + length line ≤ length source
    → ((r : Text) → rest ≡ some r → length r ≤ length line)
    → HasRange source image (replaced source image offset line rest)
unfolding replaced
replaced-HasRange source image offset line none fits within = tt
replaced-HasRange source image offset line (some rest) fits within =
    let leading = length rest - length (trim_spaces rest) in
    replace_scalar-HasRange source image (offset + length line - length rest + leading)
      (drop leading rest)
      (omega (arith, fits, within rest refl, trim_spaces-le rest, length-drop leading rest))

-- the characters of all lines
abbrev total : List Text → ℕ
total [] = 0
total (line ∷ ls) = length line + total ls

total-starts_line : (c : ℕ) (ls : List Text) → total (starts_line c ls) ≡ total ls + 1
total-starts_line c [] = refl
total-starts_line c (line ∷ ls) = omega arith

total-split : (s : Text) → total (split_inclusive s) ≡ length s
unfolding split_inclusive
total-split [] = refl
total-split (c ∷ s) = elim (Bool-cases (c == 10)) [
  | inl e ↦ rw (e, split_inclusive) (omega (arith, total-split s))
  | inr e ↦
      rw (e, split_inclusive)
        (omega (arith, total-starts_line c (split_inclusive s), total-split s))
]

module _ (yaml : Yaml) (source image : Text) (expected : yaml.Value) where
  -- what may be accepted: a replacement that reads as the expected value
  abbrev pub IsAccepted : Option Text → Type 0
  IsAccepted none = Unit
  IsAccepted (some candidate) =
      IsRange source image candidate × (reads_as yaml candidate expected ≡ true)

  abbrev AreAccepted : Result RenderError (Option Text) → Type 0
  AreAccepted (ok accepted) = IsAccepted accepted
  AreAccepted (err _) = Unit

  accept-AreAccepted :
      (accepted new : Option Text)
      → IsAccepted accepted
      → HasRange source image new
      → AreAccepted (accept yaml expected accepted new)
  unfolding accept
  accept-AreAccepted accepted none good range = good
  accept-AreAccepted none (some new) good range = elim (Bool-cases (reads_as yaml new expected)) [
    | inl e ↦ rw (e, accept) (range, e)
    | inr e ↦ rw (e, accept) tt
  ]
  accept-AreAccepted (some old) (some new) good range =
      elim (Bool-cases (reads_as yaml new expected)) [
        | inl e ↦ rw (e, accept) tt
        | inr e ↦ rw (e, accept) good
      ]

  bind-AreAccepted :
      (r : Result RenderError (Option Text)) (f : Option Text → Result RenderError (Option Text))
      → AreAccepted r
      → ((a : Option Text) → IsAccepted a → AreAccepted (f a))
      → AreAccepted (r >>= f)
  bind-AreAccepted (ok a) f h k = k a h
  bind-AreAccepted (err e) f h k = tt

  render_lines-AreAccepted :
      (offset : ℕ) (accepted : Option Text) (ls : List Text)
      → IsAccepted accepted
      → offset + total ls ≤ length source
      → AreAccepted (render_lines yaml source image expected offset accepted ls)
  unfolding render_lines
  render_lines-AreAccepted offset accepted [] good fits = good
  render_lines-AreAccepted offset accepted (line ∷ ls) good fits =
      let new =
        replaced source image offset line (strip_prefix (text "image:") (trim_spaces line)) in
      bind-AreAccepted (accept yaml expected accepted new)
        (λ now. render_lines yaml source image expected (offset + length line) now ls)
        (accept-AreAccepted accepted new good (
          replaced-HasRange source image offset line
            (strip_prefix (text "image:") (trim_spaces line)) (omega (arith, fits))
            (λ r e. omega (
              arith,
              strip_prefix-le (text "image:") (trim_spaces line) r e,
              trim_spaces-le line,
            ))))
        (λ now h. render_lines-AreAccepted (offset + length line) now ls h (omega (arith, fits)))

-- What a rendering shows: the source reads as a value with another image, and the candidate, one
-- range of the source replaced by a valid image, reads as that value with the new image.
pub record IsRendered (yaml : Yaml) (source image candidate : Text) : Type 0 where
  image_valid : valid_image image ≡ true
  value : yaml.Value
  source_read : yaml.read source ≡ some value
  old : Text
  old_image : slot_text yaml (slot yaml value) ≡ some (some old)
  image_changed : old ≢ image
  range : IsRange source image candidate
  candidate_read : reads_as yaml candidate (set_slot yaml image value) ≡ true

module _ (yaml : Yaml) (source image candidate : Text) where
  accepted-IsRendered :
      (v : yaml.Value) (r : Result RenderError (Option Text))
      → AreAccepted yaml source image (set_slot yaml image v) r
      → (r >>= λ accepted. ok_or accepted unsupported_source) ≡ ok candidate
      → IsAccepted yaml source image (set_slot yaml image v) (some candidate)
  accepted-IsRendered v (err e) h eq = absurd (cc eq)
  accepted-IsRendered v (ok none) h eq = absurd (cc eq)
  accepted-IsRendered v (ok (some c)) h eq =
      subst (λ t. IsAccepted yaml source image (set_slot yaml image v) (some t)) (cc eq) h

  different : (old : Text) → same_text old image ≡ false → old ≢ image
  different old k e = absurd (cc (k, ap (same_text old) (sym e), same_text_refl old))

  render_slot-IsRendered :
      (v : yaml.Value) (o : Option (Option Text))
      → valid_image image ≡ true
      → yaml.read source ≡ some v
      → slot_text yaml (slot yaml v) ≡ o
      → render_slot yaml source image v o ≡ ok candidate
      → IsRendered yaml source image candidate
  unfolding render_slot
  render_slot-IsRendered v none valid read e = λ h. absurd (cc h)
  render_slot-IsRendered v (some none) valid read e = λ h. absurd (cc h)
  render_slot-IsRendered v (some (some old)) valid read e =
      elim (Bool-cases (same_text old image)) [
        | inl k ↦ rw (k, render_slot) (λ h. absurd (cc h))
        | inr k ↦
            rw (k, render_slot)
              (λ h.
                let expected = set_slot yaml image v in
                let found =
                  render_lines yaml source image expected 0 none (split_inclusive source) in
                let (range, reads) =
                  accepted-IsRendered v found
                    (render_lines-AreAccepted yaml source image expected 0 none
                      (split_inclusive source) tt (omega (arith, total-split source)))
                    h in
                record {
                  image_valid = valid;
                  value = v;
                  source_read = read;
                  old = old;
                  old_image = e;
                  image_changed = different old k;
                  range = range;
                  candidate_read = reads;
                })
      ]

  render_read-IsRendered :
      (o : Option yaml.Value)
      → valid_image image ≡ true
      → yaml.read source ≡ o
      → render_read yaml source image o ≡ ok candidate
      → IsRendered yaml source image candidate
  unfolding render_read
  render_read-IsRendered none valid read h = absurd (cc h)
  render_read-IsRendered (some v) valid read h =
      render_slot-IsRendered v (slot_text yaml (slot yaml v)) valid read refl h

-- A rendering that succeeds replaces one range within the source, which is not empty, by the image,
-- a valid one: the source reads as a value with another image at `services.it-tools.image`,
-- and the result reads as that value with the new image there.
pub render-IsRendered :
    (yaml : Yaml) (source image candidate : Text)
    → render yaml source image ≡ ok candidate
    → IsRendered yaml source image candidate
unfolding render
render-IsRendered yaml source image candidate = elim (Bool-cases (valid_image image)) [
  | inr e ↦ rw (e, render) (λ h. absurd (cc h))
  | inl e ↦
      elim (Bool-cases (
        ltb (256 * 1024) (length (utf8 source))
        || any (λ c. c == 9) source
        || ltb 32 (image_lines (lines source)))) [
          | inl k ↦ rw (e, k, render) (λ h. absurd (cc h))
          | inr k ↦
              rw (e, k, render)
                (render_read-IsRendered yaml source image candidate (yaml.read source) e refl)
        ]
]
