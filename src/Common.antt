-- ===== src/Common.antt =====
-- What every module shares: names of the libraries, Boolean tests, results, ordered keys, and
-- the ordered maps, ordered sets and priority queues of Rust's standard library.
mod Tests
mod Lists
mod Results
pub mod Keys
pub mod Maps
pub mod Ends
pub mod Sets
pub mod Extensional
pub mod Heaps
pub mod Sorting
pub use Tests.*
pub use Lists.*
pub use Results.*
pub use Prim.Native.Nat.{ℕ, zero, suc, ◌+◌, ◌-◌, ◌*◌, ◌/◌, ◌%◌, ◌≤◌, ◌<◌}
pub use mathlib.Core.Path.{◌≡◌, refl, sym, ap, subst, ◌∙◌}
pub use mathlib.Core.Logic.{◌≢◌, ◌↔◌, ◌⊎◌, inl, inr}
pub use mathlib.Core.Bool.{Bool, true, false, not, ◌&&◌, ◌||◌}
pub use mathlib.Core.Option.{Option, none, some}
pub use mathlib.Core.List.{List, [], ◌∷◌, ◌++◌, map}
pub use native.Mathlib.Omega.{arith}
