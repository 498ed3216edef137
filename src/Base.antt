-- ===== src/Base.antt =====
-- Names that all other modules share: the libraries', passed on, and those of the children.
mod Tests
mod Lists
mod Pairwise
mod Outcome
mod Supabase
mod SupabaseLaws
mod CacheManager
mod Unique
mod WriteBack
mod Changes
pub use Tests.*
pub use Lists.*
pub use Pairwise.*
pub use Outcome.*
pub use Supabase.*
pub use SupabaseLaws.*
pub use CacheManager.*
pub use Unique.*
pub use WriteBack.*
pub use Changes.*
pub use Prim.Native.Nat.{ℕ, zero, suc, ◌+◌, ◌-◌, ◌*◌, ◌/◌, ◌%◌, ◌≤◌, ◌<◌, min, max}
pub use mathlib.Core.Path.{◌≡◌, refl, sym, ap, subst, ◌∙◌}
pub use mathlib.Core.Logic.{◌≢◌, ◌↔◌, ◌⊎◌, inl, inr}
pub use mathlib.Core.Bool.{Bool, true, false, ◌&&◌, ◌||◌, not}
pub use mathlib.Core.Option.{Option, none, some}
pub use mathlib.Core.List.{List, [], ◌∷◌, ◌++◌, map}
pub use native.Mathlib.Omega.{arith}
