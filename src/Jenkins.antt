-- ===== src/Jenkins.antt =====
-- internal/jenkins: the client of the Jenkins server.
pub mod BuildUrl
pub mod Client
