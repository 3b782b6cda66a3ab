-- ===== src/Gitops/Image/Examples.antt =====
-- src/gitops/it_tools_image.rs: the replacement in a concrete file.
use ai_sre.Prelude.{
  ℕ, zero, suc, ◌≡◌, refl, Option, none, some, [], ◌∷◌, ◌++◌, ok, err, Text, text, same_text,
  strip_prefix, trim_end,
}
use ai_sre.Gitops.Image.{Yaml, pilot_path, no_change, outside_scope, render, validate_change}
use ai_sre.Gitops.Image.Replaced.{IsRendered, render-IsRendered}

abbrev pub copies : ℕ → ℕ → Text
copies zero c = []
copies (suc n) c = c ∷ copies n c

abbrev pub start : Text
start = text "services:\n  it-tools:\n    image: "

abbrev pub scalar_of : Option Text → Option Text
scalar_of none = none
scalar_of (some rest) = some (trim_end rest)

-- a reader of files with the pilot's image alone, whose values are the image
abbrev pub yaml : Yaml
yaml = record {
  Value = Text;
  read = λ source. scalar_of (strip_prefix start source);
  get = λ v name. some v;
  set = λ v name w. w;
  as_str = λ v. some v;
  string = λ image. image;
  same = same_text;
}

abbrev pub image : Text
image = text "ghcr.io/corentinth/it-tools@sha256:" ++ copies 64 b'a'

abbrev pub source : Text
source = start ++ text "ghcr.io/corentinth/it-tools:1\n"

abbrev candidate : Text
candidate = start ++ image ++ text "\n"

rendered : render yaml source image ≡ ok candidate
unfolding render trim_end
rendered = refl

rendered_again : render yaml candidate image ≡ err no_change
unfolding render trim_end
rendered_again = refl

abbrev pub base : Text
base = copies 40 b'b'

changed : validate_change yaml base base source candidate image (pilot_path ∷ []) ≡ ok tt
unfolding validate_change trim_end
changed = refl

other_path :
    validate_change yaml base base source candidate image (text "x" ∷ []) ≡ err outside_scope
unfolding validate_change trim_end
other_path = refl

render-IsRendered_example : IsRendered yaml source image candidate
render-IsRendered_example = render-IsRendered yaml source image candidate rendered
