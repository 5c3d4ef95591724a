-- ===== src/Reset.antt =====
-- cmd/reset: the generator of `Reset` methods. go/parser, go/format and the file system are
-- parameters.
pub mod Syntax
pub mod Fields
pub mod Bodies
pub mod Imports
pub mod Template
pub mod Files
pub mod Walk
