-- ===== src/Base.antt =====
-- What the models share: library names, tests on numbers, texts. Instants and durations are natural
-- numbers of microseconds, the resolution of Python's datetime and timedelta.
mod Core
mod Rows
mod Texts
pub use Core.*
unfoldable pub use Texts.*
unfoldable pub use Rows.*
