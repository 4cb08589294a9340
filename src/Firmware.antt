-- ===== src/Firmware.antt =====
-- fw: the firmware's own decisions.
pub mod DeviceKey
pub mod Hab
pub mod LogRing
pub mod Provision
pub mod ProvisionTool
pub mod StatusLed
pub mod Storage
