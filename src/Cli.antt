-- ===== src/Cli.antt =====
-- The command line tool with which governors check and sign requests: how it lists the changed
-- files (Changes), and that its list agrees with the operator's (Agreement).
pub mod Changes
pub mod Agreement
pub mod Verdict
pub mod Folders
pub mod Versions
pub mod Latest
