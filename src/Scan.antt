-- ===== src/Scan.antt =====
-- src/scan/src/scanner.cpp: a directory tree is reconciled with the records of a durable store. Files
-- is the walk over the directories, Index and Steps the reconciliation of one file, Run the whole
-- scan; the others prove what it does.
pub mod Files
pub mod Index
pub mod Steps
pub mod Run
pub mod Keeps
pub mod Survival
pub mod Tests
pub mod Sorting
pub mod Walk
pub mod Ends
pub mod Counts
pub mod Handled
