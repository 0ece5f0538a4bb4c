-- ===== src/Analyser.antt =====
-- internal/analyser: declarations and usages in one file, the index of files, and the scanner.
pub mod Symbols
pub mod SymbolLaws
pub mod Occurrences
pub mod Reachable
pub mod Index
pub mod Scanner
