-- ===== src/Tests.antt =====
-- Runs on concrete inputs, and uses of the theorems there.
mod Links
mod Logs
mod Processes
mod Systems
mod Programs
mod Parsing
mod Networks
