-- ===== src/Tests.antt =====
-- Runs on concrete inputs, and each theorem that has hypotheses at an input that meets them.
mod Codec
mod Rebase
mod Outbound
mod NetworkState
mod ChangeDetector
mod WifiScan
mod WifiProfile
mod Json
mod Session
mod ControlPlane
mod PlaneRepair
mod WifiManager
mod Business
mod EthernetFile
mod EthernetTransaction
mod WpaMonitor
