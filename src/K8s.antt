-- ===== src/K8s.antt =====
-- The Kubernetes side, k8s/: the resources, the agent of a node and the controllers.
pub mod Types
pub mod Convert
pub mod Agent
pub mod Nodes
pub mod Client
pub mod Services
pub mod Scheduling
pub mod Groups
pub mod Keys
