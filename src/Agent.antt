-- ===== src/Agent.antt =====
-- The agent: src/agent, its tools and the sandbox.
pub mod WorkspacePath
pub mod Sandbox
pub mod Tools
pub mod Publish
pub mod Events
pub mod Loop
