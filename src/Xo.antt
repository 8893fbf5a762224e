-- ===== src/Xo.antt =====
-- The transaction family `xo` (examples/xo_python/sawtooth_xo): the game, its place in the
-- validator's state, the payload, and the handler.
pub mod Board
pub mod Game
pub mod Payload
pub mod State
pub mod Rules
pub mod Handler
pub mod Processing
pub mod Client
pub mod Cli
pub mod Config
pub mod Display
pub mod Main
mod Tests
