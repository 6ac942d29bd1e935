-- ===== src/Scripts.antt =====
-- hpfeeds/scripts: what the command lines ask for, and what the programs do with it.
pub mod Options
pub mod Cli
pub mod Launch
pub mod Tests
