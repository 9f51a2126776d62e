-- ===== src/Dict.antt =====
-- Go maps: association lists in which a key stands once.
mod Assoc
mod Sums
pub use Sums.{Values, keep-Values, put-Values, get_or-Values, sum_by, sum_by-keep, sum_by-put}
pub use Assoc.{Dict, lookup-put, lookup-remove, get_or-put, get_or-remove}
unfoldable pub use Assoc.{lookup, put, remove, get_or}
