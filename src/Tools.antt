-- ===== src/Tools.antt =====
-- What the tools share: limits on what they return, the guard of clients' regular expressions, and
-- byte signatures.
pub mod Regex
pub mod Signature
pub mod Limits
pub mod Trace
pub mod Callgraph
pub mod Convert
pub mod Debugger
pub mod Script
pub mod Query
pub mod Patch
pub mod Search
pub mod Enums
pub mod Budget
