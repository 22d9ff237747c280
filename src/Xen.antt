-- ===== src/Xen.antt =====
-- The backend for Xen: src/xendriver.cpp and src/xeneventmanager.cpp.
pub mod Registers
pub mod Events
pub mod Mtrr
pub mod Pages
pub mod Monitor
pub mod Watcher
pub mod Saved
pub mod Guest
pub mod Control
