-- ===== src/Paging.antt =====
-- Package paging: the pipe syntax, the output filters and the pager.
pub mod Pipeline
pub mod Filter
pub mod Pager
mod Tests
