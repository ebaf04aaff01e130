-- ===== src/Text.antt =====
-- Go strings as sequences of bytes, and what the program uses of the packages `strings`,
-- `strconv`, `path/filepath` and `fmt`.
mod Bytes
mod Search
mod Split
mod Spaces
mod Decimal
mod FilePath
mod Join
mod Format
unfoldable pub use Bytes.{Str, bytes, str_eq, str_keys, byte_at}
pub use Bytes.{str_eq_iff, str_eq_refl}
unfoldable pub use Search.{has_prefix, has_suffix, contains}
pub use Search.{contains-append, has_suffix-append, has_suffix-eq-append, has_suffix-last}
unfoldable pub use Split.{split, join, cut, Free}
pub use Split.{
  split-append, cut-append, cut_sound, cut-none, join-split, split-Free, split-join, cut-Free,
}
unfoldable pub use Spaces.{is_space, trim_end, trim_space, fields, to_upper}
unfoldable pub use Decimal.{is_digit, digit_value, decimal, parse_uint}
unfoldable pub use FilePath.{clean, join_path}
unfoldable pub use Format.{quote, format}
pub use Join.{IsName}
unfoldable pub use Join.{rooted, is_name}
pub use Join.{IsName-of_test, IsName-of_tests}
pub use Join.{
  join_path-rooted, join_path-name, join_path-empty, join_path-climb, join_path-below,
  join_path-dots,
}
pub use Decimal.{parse_uint-decimal, parse_uint-lt}
pub use Spaces.Fields.{NoSpace, fields-word, fields-space, fields-join}
pub use Decimal.{decimal-IsDigits}
