-- ===== src/Gitops/Image.antt =====
-- src/gitops/it_tools_image.rs and src/gitops/validate.rs: the replacement of the pilot's image in a
-- Compose file. serde_yaml_ng's values with their reader are a parameter. The text is a list of
-- characters, and an offset into it counts characters.
pub mod Replaced
pub mod Examples
use ai_sre.Prelude.{
  ℕ, ◌+◌, ◌-◌, ◌*◌, Bool, true, false, not, ◌&&◌, ◌||◌, Option, none, some, List, [], ◌∷◌, ◌++◌,
  Result, ok, err, ◌>>=◌, ok_or, any, take, drop, length, ltb, ◌==◌, if◌then◌else◌, Text, text,
  same_text, strip_prefix, begins_with, starts_line, trim_start, trim_end, lines, utf8,
}
use ai_sre.Gitops.Receipt.{valid_image, valid_sha}

abbrev pub pilot_path : Text
pilot_path = text "stacks/utility/compose.yml"

pub data RenderError : Type 0 where
  invalid_image unsupported_source no_change : RenderError

pub data ScopeError : Type 0 where
  base_changed outside_scope : ScopeError

-- `from_str`, `get_mut` of a mapping with the assignment through it, `as_str`, `Value::String`, `==`
pub record Yaml : Type 1 where
  pub Value : Type 0
  pub read : Text → Option Value
  pub get : Value → Text → Option Value
  pub set : Value → Text → Value → Value
  pub as_str : Value → Option Text
  pub string : Text → Value
  pub same : Value → Value → Bool

-- `split_inclusive('\n')`
unfoldable pub split_inclusive : Text → List Text
split_inclusive [] = []
split_inclusive (c ∷ s) =
    let rest = split_inclusive s in if c == 10 then (c ∷ []) ∷ rest else starts_line c rest

-- `trim_start_matches(' ')`
unfoldable pub trim_spaces : Text → Text
trim_spaces [] = []
trim_spaces (c ∷ s) = let rest = trim_spaces s in if c == 32 then rest else c ∷ s

abbrev after_space : Option ℕ → Option ℕ
after_space none = none
after_space (some i) = some (i + 1)

-- `find(" #")`
unfoldable pub find_comment : Text → Option ℕ
find_comment [] = none
find_comment (c ∷ s) =
    let rest = find_comment s in if c == 32 && begins_with 35 s then some 0 else after_space rest

abbrev unwrap_or : Option ℕ → ℕ → ℕ
unwrap_or none n = n
unwrap_or (some m) n = m

abbrev names_image : Text → Bool
names_image line = elim (strip_prefix (text "image:") line) [ none ↦ false | some _ ↦ true ]

-- the number of lines that name an image
unfoldable pub image_lines : List Text → ℕ
unfolding trim_start
image_lines [] = 0
image_lines (line ∷ ls) =
    let rest = image_lines ls in if names_image (trim_start line) then rest + 1 else rest

-- `replace_range(start..start + n, image)` in a copy of the source
abbrev pub replace_range : Text → ℕ → ℕ → Text → Text
replace_range source start n image = take start source ++ image ++ drop (start + n) source

-- the end of a scalar, before a comment or the white space behind it
unfoldable pub scalar_end : Text → ℕ
unfolding find_comment trim_end
scalar_end scalar = unwrap_or (find_comment scalar) (length (trim_end scalar))

abbrev pub is_scalar : Text → Bool
is_scalar scalar =
    ltb 0 (scalar_end scalar)
    && not (any (λ c. c == 10 || c == 13) (take (scalar_end scalar) scalar))

unfoldable pub replace_scalar : Text → Text → ℕ → Text → Option Text
unfolding scalar_end
replace_scalar source image start scalar =
    if is_scalar scalar then some (replace_range source start (scalar_end scalar) image) else none

-- the text with the scalar of a line replaced, behind its `image:`
unfoldable pub replaced : Text → Text → ℕ → Text → Option Text → Option Text
unfolding trim_spaces replace_scalar
replaced source image offset line none = none
replaced source image offset line (some rest) =
    let leading = length rest - length (trim_spaces rest) in
    replace_scalar source image (offset + length line - length rest + leading) (drop leading rest)

module _ (yaml : Yaml) where
  abbrev pub reads_as : Text → yaml.Value → Bool
  reads_as candidate expected = elim (yaml.read candidate) [
    | none ↦ false
    | some v ↦ yaml.same v expected
  ]

  abbrev accept_new : Option Text → Text → Result RenderError (Option Text)
  accept_new none candidate = ok (some candidate)
  accept_new (some _) candidate = err unsupported_source

  -- a line's candidate beside the accepted one
  unfoldable pub accept : yaml.Value → Option Text → Option Text → Result RenderError (Option Text)
  accept expected accepted none = ok accepted
  accept expected accepted (some candidate) =
      if reads_as candidate expected then accept_new accepted candidate else ok accepted

  -- the loop over the lines
  unfoldable pub render_lines :
      Text → Text → yaml.Value → ℕ → Option Text → List Text → Result RenderError (Option Text)
  unfolding accept replaced trim_spaces
  render_lines source image expected offset accepted [] = ok accepted
  render_lines source image expected offset accepted (line ∷ ls) =
      accept expected accepted
        (replaced source image offset line (strip_prefix (text "image:") (trim_spaces line)))
      >>= λ now. render_lines source image expected (offset + length line) now ls

  abbrev pub get_field : Option yaml.Value → Text → Option yaml.Value
  get_field none name = none
  get_field (some v) name = yaml.get v name

  -- the value of `services.it-tools.image`
  abbrev pub slot : yaml.Value → Option yaml.Value
  slot v = get_field (get_field (yaml.get v (text "services")) (text "it-tools")) (text "image")

  abbrev set_field : yaml.Value → Text → (yaml.Value → yaml.Value) → yaml.Value
  set_field v name change = elim (yaml.get v name) [
    | none ↦ v
    | some w ↦ yaml.set v name (change w)
  ]

  -- `*slot = Value::String(image)`
  abbrev pub set_slot : Text → yaml.Value → yaml.Value
  set_slot image v = set_field v (text "services") (λ services.
      set_field services (text "it-tools")
        (λ tool. set_field tool (text "image") (λ _. yaml.string image)))

  -- by the image that is there
  unfoldable pub render_slot :
      Text → Text → yaml.Value → Option (Option Text) → Result RenderError Text
  unfolding render_lines split_inclusive
  render_slot source image v none = err unsupported_source
  render_slot source image v (some none) = err unsupported_source
  render_slot source image v (some (some old)) =
      if same_text old image
      then err no_change
      else (render_lines source image (set_slot image v) 0 none (split_inclusive source)
          >>= λ accepted. ok_or accepted unsupported_source)

  abbrev pub slot_text : Option yaml.Value → Option (Option Text)
  slot_text none = none
  slot_text (some v) = some (yaml.as_str v)

  unfoldable pub render_read : Text → Text → Option yaml.Value → Result RenderError Text
  unfolding render_slot
  render_read source image none = err unsupported_source
  render_read source image (some v) = render_slot source image v (slot_text (slot v))

  unfoldable pub render : Text → Text → Result RenderError Text
  unfolding render_read valid_image image_lines lines utf8
  render source image =
      if not (valid_image image)
      then err invalid_image
      else if ltb (256 * 1024) (length (utf8 source))
          || any (λ c. c == 9) source
          || ltb 32 (image_lines (lines source))
      then err unsupported_source
      else render_read source image (yaml.read source)

  abbrev is_only_pilot : List Text → Bool
  is_only_pilot (path ∷ []) = same_text path pilot_path
  is_only_pilot _ = false

  abbrev pub renders : Result RenderError Text → Text → Bool
  renders (ok text) candidate = same_text text candidate
  renders (err _) candidate = false

  unfoldable pub validate_change :
      Text → Text → Text → Text → Text → List Text → Result ScopeError (Unit {0})
  unfolding render valid_sha utf8
  validate_change expected_base current_base source candidate image changed_paths =
      if not (valid_sha expected_base) || not (same_text expected_base current_base)
      then err base_changed
      else if not (is_only_pilot changed_paths)
          || ltb (256 * 1024) (length (utf8 candidate))
          || not (renders (render source image) candidate)
      then err outside_scope
      else ok tt
