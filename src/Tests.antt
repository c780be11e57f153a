-- ===== src/Tests.antt =====
-- The theorems at concrete inputs, and runs of the model.
mod Hosts
mod Disks
mod Serials
mod Tables
mod Mbrs
mod Ppms
mod Kvms
mod Fats
mod Nets
mod Raws
mod Companions
mod Ports
mod Isos
mod Runners
mod Qemus
