-- ===== src/Kernel.antt =====
-- The machine that the kernel's code runs on: its objects, its globals, and commands over them.
mod State
mod Run
mod Access
mod Constants
pub mod Lists
pub mod Blocks
pub use State.*
unfoldable pub use Run.*
unfoldable pub use Access.*
pub use Constants.*
