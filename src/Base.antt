-- ===== src/Base.antt =====
-- The names that every module shares: the libraries' names, passed on, the Boolean tests, lists
-- over the native numbers, and maps from texts. Models no file of its own.
mod Tests
mod Lists
mod Maps
mod Perms
mod Render
pub use Tests.*
pub use Lists.*
pub use Maps.*
pub use Perms.*
unfoldable pub use Render.*
pub use Prim.Native.Nat.{ℕ, zero, suc, ◌+◌, ◌-◌, ◌*◌, ◌/◌, ◌%◌, ◌^◌, ◌≤◌, ◌<◌, min}
pub use Prim.Native.String.{String}
pub use mathlib.Core.Path.{◌≡◌, refl, sym, ap, ◌∙◌, subst}
pub use mathlib.Core.Logic.{◌≢◌, ◌↔◌, ◌⊎◌, inl, inr}
pub use mathlib.Core.Bool.{Bool, true, false, not, ◌&&◌, ◌||◌}
pub use mathlib.Core.Option.{Option, none, some}
pub use mathlib.Core.List.{List, [], ◌∷◌, ◌++◌, map, Permᴰ}
pub use native.Mathlib.Omega.{arith}
