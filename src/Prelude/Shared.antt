-- ===== src/Prelude/Shared.antt =====
-- The libraries' names that most modules use, with the tests and the lists.
pub use recat_qbo.Prelude.Tests.{
  ltb, leb, ◌==◌, if◌then◌else◌, str_eq, str_eq_iff, opt_str_eq, opt_str_eq_iff, is_none, ltb→lt,
  lt→ltb, leb→le, tests, Bool-cases, Option-cases,
}
pub use recat_qbo.Prelude.Lists.{
  length, get_elem?, any, all, keep, find, All, length-append, length-map, length-keep-le,
  All-append, All-map,
}
pub use Prim.Native.Nat.{ℕ, zero, suc, ◌+◌, ◌-◌, ◌*◌, ◌/◌, ◌%◌, ◌^◌, ◌≤◌, ◌<◌}
pub use Prim.Native.String.{String}
pub use mathlib.Core.Path.{◌≡◌, refl, sym, ap, subst, ◌∙◌}
pub use mathlib.Core.Logic.{◌≢◌, ◌↔◌, ◌⊎◌, inl, inr}
pub use mathlib.Core.Bool.{Bool, true, false, not, ◌&&◌, ◌||◌}
pub use mathlib.Core.Option.{Option, none, some}
pub use mathlib.Core.List.{List, [], ◌∷◌, ◌++◌, map}
pub use native.Mathlib.Omega.{arith}
