-- ===== src/Base.antt =====
-- The names that all the other modules share: the libraries' names, passed on, and those of the
-- children (tests, arrays, machine words, results). Nothing here is about one file of the kernel.
mod Tests
mod Array
mod Word
mod Effect
mod Loop
unfoldable pub use Tests.*
pub use Array.*
pub use Word.*
unfoldable pub use Loop.*
pub use Effect.*
pub use Prim.Native.Nat.{
  ℕ, zero, suc, ◌+◌, ◌-◌, ◌*◌, ◌/◌, ◌%◌, ◌^◌, ◌≤◌, ◌<◌, bit_and, bit_or, bit_xor, min, max,
}
pub use mathlib.Core.Path.{◌≡◌, refl, sym, ap, ap₂, ◌∙◌}
pub use mathlib.Core.Logic.{◌≢◌, ◌↔◌, ◌⊎◌, inl, inr}
pub use mathlib.Core.Bool.{Bool, true, false, not, ◌&&◌, ◌||◌}
pub use mathlib.Core.Option.{Option, none, some}
pub use mathlib.Core.List.{List, [], ◌∷◌, ◌++◌, map, append-nil, append_assoc}
pub use native.Mathlib.Omega.{arith}
