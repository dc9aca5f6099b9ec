-- ===== src/Base.antt =====
-- What the other modules share: the libraries' names, tests on numbers, lists indexed by native
-- numbers, C's `int`, the interface of `double`, and text as a list of bytes.
mod Tests
mod Lists
mod Bytes
pub mod Int
pub mod Double
pub mod Scan
pub mod Ptr
pub mod Print
pub use Tests.*
pub use Lists.*
unfoldable pub use Bytes.*
pub use Prim.Native.Nat.{ℕ, zero, suc, ◌+◌, ◌-◌, ◌*◌, ◌/◌, ◌%◌, ◌^◌, ◌≤◌, ◌<◌}
pub use mathlib.Core.Path.{◌≡◌, refl, sym, ap, ◌∙◌}
pub use mathlib.Core.Logic.{◌≢◌, ◌↔◌, ◌⊎◌, inl, inr}
pub use mathlib.Core.Bool.{Bool, true, false, not, ◌&&◌, ◌||◌}
pub use mathlib.Core.Option.{Option, none, some, some-injective}
pub use mathlib.Core.List.{
  List, [], ◌∷◌, ◌++◌, head?, map, foldl, map-append, append_assoc, append-nil,
}
pub use native.Mathlib.Omega.{arith}
