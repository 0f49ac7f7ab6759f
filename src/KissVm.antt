-- ===== src/KissVm.antt =====
-- The KISS VM (src/kissvm): tokenizer, parser, interpreter and contract.
pub mod Token
pub mod Scan
pub mod Tokenizer
pub mod Node
pub mod Parser
pub mod Shape
pub mod Value
pub mod Numbers
pub mod Environment
pub mod Interpreter
pub mod Contract
pub mod Functions
mod Tests
