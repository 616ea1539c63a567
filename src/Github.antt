-- ===== src/Github.antt =====
-- internal/githubclt: the merge requirements that GitHub reports for a pull request.
pub mod CiStatus
pub mod Pages
pub mod Summary
pub mod Reports
pub mod Paging
pub mod Ready
pub mod Client
pub mod ListPrs
