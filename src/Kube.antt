-- ===== src/Kube.antt =====
-- What lies outside the repository: the cluster, the SFTPGo service, the clock.
pub mod Objects
pub mod Env
pub mod Calls
