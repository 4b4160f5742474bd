-- ===== src/Common.antt =====
-- Names shared by every part of the library: those of the mounted libraries, passed on, and the
-- tests, list lemmas, loops, maps and sorting of the child modules.
mod Tests
mod Lists
mod Indices
mod Loops
mod Maps
mod Positions
mod Results
mod Updates
mod Sorting
mod Keyed
mod Membership
mod Integers
pub use Tests.*
pub use Lists.*
pub use Indices.*
pub use Loops.*
pub use Maps.*
pub use Positions.*
pub use Results.*
pub use Updates.*
pub use Sorting.*
pub use Keyed.*
pub use Membership.*
pub use Integers.*
pub use Prim.Native.Nat.{ℕ, zero, suc, ◌+◌, ◌-◌, ◌*◌, ◌/◌, ◌%◌, ◌^◌, ◌≤◌, ◌<◌, min, max}
pub use Prim.Native.String.{String}
pub use mathlib.Core.Path.{◌≡◌, refl, sym, ap, subst, ◌∙◌}
pub use mathlib.Core.Logic.{◌≢◌, ◌↔◌, ◌⊎◌, inl, inr}
pub use mathlib.Core.Bool.{Bool, true, false, not, ◌&&◌, ◌||◌}
pub use mathlib.Core.Option.{Option, none, some}
pub use mathlib.Core.List.{List, [], ◌∷◌, ◌++◌, map}
pub use native.Mathlib.Omega.{arith}
