-- ===== src/Plugin.antt =====
-- src/selective_trace_mysql.cc: what the plugin keeps for each connection, the events that change
-- it, the variables that hold the filters, the decision to log with the texts of the two outputs,
-- and the plugin's start and end.
pub mod Statement
pub mod Filters
pub mod Output
pub mod Status
pub mod Dispatch
pub mod Writers
pub mod Lifecycle
