-- ===== src/Go.antt =====
-- What every module shares: the libraries' names, and the parts of Go that the program leans on
-- (integers, strings, slices, errors).
mod Tests
mod Lists
mod Int
mod Text
mod Results
mod Maps
mod Hex
mod Net
mod Separators
mod Split
mod Escape
mod Header
pub mod Strings
pub use Tests.*
pub use Lists.*
unfoldable pub use Int.*
unfoldable pub use Text.*
unfoldable pub use Results.*
unfoldable pub use Maps.*
unfoldable pub use Hex.*
unfoldable pub use Net.*
unfoldable pub use Separators.*
unfoldable pub use Split.*
unfoldable pub use Escape.*
unfoldable pub use Header.*
unfoldable pub use Strings.*
pub use Prim.Native.Nat.{ℕ, zero, suc, ◌+◌, ◌-◌, ◌*◌, ◌/◌, ◌%◌, ◌^◌, ◌≤◌, ◌<◌, min}
pub use mathlib.Core.Path.{◌≡◌, refl, sym, ap, ◌∙◌}
pub use mathlib.Core.Logic.{◌≢◌, ◌↔◌, ◌⊎◌, inl, inr}
pub use mathlib.Core.Bool.{Bool, true, false, not, ◌&&◌, ◌||◌}
pub use mathlib.Core.Option.{Option, none, some}
pub use mathlib.Core.List.{List, [], ◌∷◌, ◌++◌, map}
pub use native.Mathlib.Omega.{arith}
