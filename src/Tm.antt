-- ===== src/Tm.antt =====
-- The Task Manager, tm/: the tasks that are posted, the Process Managers that run them, and the
-- scheduler between them.
pub mod Resources
pub mod Task
pub mod TaskList
pub mod PmRecordList
pub mod Manager
