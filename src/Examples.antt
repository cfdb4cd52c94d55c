-- ===== src/Examples.antt =====
-- The theorems at concrete inputs. No code of the repository is modelled here.
mod AirIpc
mod Stream
mod Mesh
mod Lora
mod Transmitter
mod Pb
mod Bridge
mod Util
mod Daemon
mod Radio
mod Phy
mod Backend
