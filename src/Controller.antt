-- ===== src/Controller.antt =====
-- The controller program: src/cmd/controller/main.go. The children Join, Main and Ports are
-- `joinCluster`, `main` and `killPort`.
pub mod Join
pub mod Joining
pub mod Main
pub mod Order
pub mod Ports
