-- ===== src/Transport.antt =====
-- src/rdma/transport.h, src/rdma/transport.cpp and the vendors' parts of src/rdma: connections on an
-- open device. libibverbs (src/common/ibv-wrapper.h) is a parameter, see Transport/Verbs.antt.
pub mod Device
pub mod Verbs
pub mod Attrs
pub mod Connection
pub mod Lifetime
pub mod Connects
pub mod Poll
