-- ===== src/Nfqlb.antt =====
-- pkg/nfqlb: the nfqlb process, its services and targets, and the netfilter and routing set-up.
pub mod Service
pub mod Offset
pub mod Utils
pub mod Platform
pub mod Errors
pub mod Routing
pub mod Sets
pub mod Config
pub mod Targets
pub mod Netfilter
pub mod Flows
pub mod LoadBalancer
pub mod Nftables
pub mod Queue
pub mod Sample
pub mod Tests
