-- ===== src/MergeQueue.antt =====
-- internal/mergequeue: the merge queues of the base branches.
pub mod PullRequest
pub mod OrderBefore
pub mod World
pub mod Queue
pub mod Manage
pub mod Ci
pub mod ProcessPr
pub mod Eval
pub mod Process
pub mod Coordinator
pub mod Events
pub mod HttpService
pub mod Sync
