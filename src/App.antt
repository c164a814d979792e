-- ===== src/App.antt =====
-- What the services and the handlers of src/services and src/transport run in: the state that a
-- request sees, and actions on it that may raise. What was written before a raise stays written
-- until the transaction ends, so the state comes back beside the exception too.
mod Monad
mod Results
mod Draw
mod Tables
mod Keeping
pub use Monad.*
unfoldable pub use Monad.{pure, raise, gets, lift, or_raise, modify, raise_if, ◌>>=◌}
pub use Results.*
unfoldable pub use Results.{all_of}
pub use Draw.*
unfoldable pub use Draw.{draw, new_base}
pub use Tables.*
pub use Keeping.*
