-- ===== src/Examples.antt =====
-- The theorems at concrete inputs.
mod Api
mod State
mod Minio
mod Token
mod Transport
mod Pool
mod Topology
mod Buffer
mod Abandoned
