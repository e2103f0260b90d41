-- ===== src/Cluster.antt =====
-- internal/cluster: the partitioner and the registry of nodes.
pub mod Partition
pub mod Registry
pub mod Registrar
pub mod Observer
