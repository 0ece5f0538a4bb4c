-- ===== src/Prelude.antt =====
-- The names that the modules share: the libraries', passed on, and those of the children.
mod Tests
mod Lists
mod Text
mod Maps
mod Integers
mod Runes
mod Sorting
mod Trim
pub use Tests.*
pub use Lists.*
pub use Maps.{
  Map, keys, get-delete, get-put, IsMap, delete-IsMap, put-IsMap, get_of_mem, mem_of_get,
}
pub use Maps.{map_laws}
unfoldable pub use Maps.{get, delete, put}
pub use Text.{Str, bytes, str_eq_iff, str_eq_refl, Str-cases, contains_iff, contains-append}
pub use Text.{has_prefix_iff, has_infix_iff}
unfoldable pub use Trim.{trim_space, cut, scan_lines}
pub use Trim.{reverse}
pub use Sorting.{
  mem-sort_slice, IsSorted, sort_slice-IsSorted, str_lt_asymmetric, str_lt_total, AreDistinct,
  IsAscending, sort_slice-IsAscending,
}
unfoldable pub use Sorting.{str_lt, insert, sort_slice}
pub use Integers.{ℤ, pos, negsuc}
unfoldable pub use Integers.{is_positive, is_negative, add_one, to_uint}
pub use Runes.{rune_error, runes-encode_runes, encode_runes-append, AreRunes}
unfoldable pub use Runes.{decode_rune, runes_loop, runes, is_rune, encode_rune, encode_runes}
unfoldable pub use Text.{str_eq, contains, has_prefix, has_infix, before_byte}
pub use Prim.Native.Nat.{ℕ, zero, suc, ◌+◌, ◌-◌, ◌*◌, ◌/◌, ◌%◌, ◌^◌, ◌≤◌, ◌<◌, min}
pub use mathlib.Core.Path.{◌≡◌, refl, sym, ap, ◌∙◌}
pub use mathlib.Core.Logic.{◌≢◌, ◌↔◌, ◌⊎◌, inl, inr}
pub use mathlib.Core.Bool.{Bool, true, false, not, ◌&&◌, ◌||◌}
pub use mathlib.Core.Option.{Option, none, some}
pub use mathlib.Core.List.{List, [], ◌∷◌, ◌++◌, map, Memᴰ, append-nil, append_assoc}
pub use native.Mathlib.Omega.{arith}
