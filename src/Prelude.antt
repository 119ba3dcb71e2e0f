-- ===== src/Prelude.antt =====
-- The names that the other modules share: those of the libraries, and the children's.
pub mod Tests
pub mod Results
pub mod Lists
pub mod Text
pub mod Assoc
pub mod Int
pub mod Sort
pub use Tests.*
pub use Results.{Result, ok, err, ok_eq, ◌>>=◌, ◌>>◌, require, refuse}
pub use Lists.*
pub use Text.{Str, lit, str_eq_iff, str_eq_refl, is_blank, is_space}
unfoldable pub use Text.{str_eq, trim_space}
pub use Prim.Native.Nat.{ℕ, zero, suc, ◌+◌, ◌-◌, ◌*◌, ◌/◌, ◌%◌, ◌≤◌, ◌<◌, min}
pub use mathlib.Core.Path.{◌≡◌, refl, sym, ap, ◌∙◌}
pub use mathlib.Core.Logic.{◌≢◌, ◌↔◌, ◌⊎◌, inl, inr}
pub use mathlib.Core.Bool.{Bool, true, false, not, ◌&&◌, ◌||◌}
pub use mathlib.Core.Option.{Option, none, some}
pub use mathlib.Core.List.{List, [], ◌∷◌, ◌++◌, map, append-nil, append_assoc}
pub use native.Mathlib.Omega.{arith}
