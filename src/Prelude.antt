-- ===== src/Prelude.antt =====
-- The names that the other modules share: the libraries', passed on, and those of the children.
mod Tests
mod Lists
mod Results
mod Texts
pub mod Decimal
pub mod Int
pub mod Map
pub use Tests.*
pub use Lists.*
pub use Results.*
pub use Texts.{
  Text, text, same_text, same_text_iff, same_text_refl, same_text_sym, text_lt, strip_prefix,
  strip_prefix-append, is_whitespace, is_blank, utf8_char, is_ascii_digit, is_ascii_hexdigit,
  hex_digit, hex, trim, begins_with, starts_line,
}
unfoldable pub use Texts.{utf8, trim_start, trim_end, lines}
pub use Prim.Native.Nat.{ℕ, zero, suc, ◌+◌, ◌-◌, ◌*◌, ◌/◌, ◌%◌, ◌^◌, ◌≤◌, ◌<◌, min, max}
pub use mathlib.Core.Path.{◌≡◌, refl, sym, ap, subst, ◌∙◌, ◌≡⟨◌⟩◌, ◌∎}
pub use mathlib.Core.Logic.{◌≢◌, ◌↔◌, ◌⊎◌, inl, inr}
pub use mathlib.Core.Bool.{Bool, true, false, not, ◌&&◌, ◌||◌}
pub use mathlib.Core.Option.{Option, none, some}
pub use mathlib.Core.List.{List, [], ◌∷◌, ◌++◌, map, append-nil, append_assoc}
pub use native.Mathlib.Omega.{arith}
