-- ===== src/Prelude.antt =====
-- Names that every module shares: the libraries', passed on, and those of the children.
mod Tests
mod ByteString
pub mod Map
mod Results
mod Lists
pub mod BTree
mod Prefixes
pub use Tests.*
pub use ByteString.{
  Bytes, Text, text, cmp_refl, eq_of_cmp, cmp_swap, cmp_trans, flip, eq_iff, eq_refl, eq_false,
}
unfoldable pub use ByteString.{cmp, ◌==◌, contains}
pub use Results.*
pub use Lists.*
unfoldable pub use Prefixes.{strip_prefix, starts_with, ends_with}
pub use Prim.Native.Nat.{ℕ, zero, suc, ◌+◌, ◌-◌, ◌*◌, ◌/◌, ◌%◌, ◌^◌, ◌≤◌, ◌<◌, Ordering}
pub use Prim.Native.String.{String}
pub use mathlib.Core.Path.{◌≡◌, refl, sym, ap, ◌∙◌, fun_ext}
pub use mathlib.Core.Logic.{◌≢◌, ◌↔◌, ◌⊎◌, inl, inr}
pub use mathlib.Core.Bool.{Bool, true, false, ◌&&◌, ◌||◌, not}
pub use mathlib.Core.Option.{Option, none, some}
pub use mathlib.Core.List.{List, [], ◌∷◌, ◌++◌}
pub use native.Mathlib.Omega.{arith}
