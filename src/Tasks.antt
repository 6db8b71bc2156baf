-- ===== src/Tasks.antt =====
-- redfish_sdk/managers/task.py and the data of redfish_sdk/models/task.py: the monitoring of
-- asynchronous operations.
pub mod Defs
pub mod Operation
pub mod Rounds
pub mod Finished
pub mod Deadline
pub mod Polling
pub mod Served
pub mod Lookup
mod Tests
