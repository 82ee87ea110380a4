-- ===== src/Core.antt =====
-- libs/core: timers, the event loop and the handle that releases what it stands for.
pub mod Timer
pub mod EventLoop
pub mod ScopedHandler
pub mod Logger
pub mod Clock
