-- ===== src/Sys.antt =====
-- What the programs see of the operating system. A program is an action over a kernel that it cannot
-- see into: the kernel answers each call, and may let the answer depend on everything that happened.
mod Calls
mod Run
mod Bind
mod Loop
mod Always
pub mod Files
pub mod Image
pub mod View
pub mod Sample
pub use Calls.*
pub use Run.*
pub use Bind.*
unfoldable pub use Loop.*
pub use Always.*
