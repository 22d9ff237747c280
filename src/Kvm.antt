-- ===== src/Kvm.antt =====
-- The backend for KVM: src/kvmdriver.cpp and src/kvmeventmanager.cpp.
pub mod Kvmi
mod Granting
pub mod Control
pub mod Views
pub mod Pause
pub mod Batch
pub mod Registers
pub mod Vcpus
pub mod Events
pub mod Requests
pub mod Loop
pub mod Watcher
pub mod Drain
pub mod Memory
