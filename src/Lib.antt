-- ===== src/Lib.antt =====
-- hipObject: object transfers between a GPU's memory and an S3 server by RDMA.
--
-- A client (src/hipobj.cpp) registers a buffer, describes it to the server by a token, a text of
-- hex digits (src/rdma/token.cpp), and leases a connection for the transfer from a pool
-- (src/rdma/connection-pool.cpp). The server answers with a status and, for a reliable connection,
-- with a token of its own; the connection (src/rdma/transport.cpp) is connected to that peer, and
-- reset or replaced when the lease ends.
--
-- The files:
--   Prelude          names and lemmas that the modules share
--   Parse            `parseNumber` of shared/hipobj-parse.h, with `std::from_chars` written out for
--                    a type is its largest value
--   Gid              src/common/gid.h: a GID is a list of bytes
--   Token            src/rdma/token.h and token.cpp. A character is its byte, a text a list of bytes.
--                    Token holds the codec, Token/Reply the replies, Token/ClientNic the address of
--                    the client's NIC; the other children prove. `RdmaToken::length` is `len`.
--   Transport        src/rdma/transport.h and transport.cpp, src/rdma/bnxt, src/rdma/ionic.
--                    Transport/Verbs is the interface to libibverbs: a function of the log of the
--                    calls made so far gives the next outcome, so the theorems hold whatever the
--                    library answers, exceptions included. Transport/Attrs has the attributes of
--                    each transition, Transport/Connection the operations: each returns its outcome
--                    and the log after it. Transport/Poll is the wait for a completion: the clock and
--                    the queue are a list of rounds. Transport/Device opens a device.
--   Pool             src/rdma/connection-pool.h and connection-pool.cpp: the locked sections of each
--                    operation as functions on the members that the mutex guards. Pool/System is a
--                    step relation for any number of threads: a step is one locked section, one
--                    notification or the unlocked part of `release`; Pool/System/Spec is the
--                    abstract pool that it refines.
--   Topology         src/common/rdma-topology.h and rdma-topology.cpp: the choice of a GID, the
--                    distance of two PCIe bus ids, and, in Topology/Nics, the list of NICs and the
--                    closest one. What libibverbs and the files under /sys answer are functions.
--   Buffer           src/buffer.h and buffer.cpp. `System`, the HIP runtime and the verbs, is any
--                    function of the log; `entries_` is a list of items, each with the number of the
--                    holders of its entry beside the map. A registration takes the map twice, as the
--                    precheck and the insertion find it, since the lock is not held in between.
--   Abandoned        src/abandoned-copies.h and abandoned-copies.cpp: the list of the copies that timed
--                    out. What a vector allocates is a parameter, and so is whether an event is over.
--   Api              include/hipobj.h, src/hipobj.cpp and src/s3/control.cpp, the public functions. Api/Instance is
--                    the state that they work on, with the logs of the calls of libibverbs and of
--                    the HIP runtime; a part of a call is a function from an instance to how it ends
--                    and the instance after it: it gives an error, throws, or still waits. Api/Staging
--                    has the staging copies, Api/Transfer one transfer with a lease, Api/Calls the
--                    functions, and Api/Plain those that need no instance. The callbacks are any
--                    functions that can change the instance, as they can call any public function,
--                    and other threads run meanwhile. Api/Holders counts who holds a registration,
--                    Api/Success inverts a call that succeeds, Api/Balance and Api/Ends are about one staging
--                    copy, and Api/Waits about the wait for it.
--   State            src/state.h and state.cpp: the options, initialization and shutdown
--   Minio            integrations/minio-cpp/src/rdma.cpp: what is made of a server's response, and the
--                    loops that try again; sending a request is a parameter. Minio/Session,
--                    Minio/Http, Minio/Stats and Minio/Objects are client.cpp beside it:
--                    initialization for an address, the fallbacks to HTTP, the counters, and
--                    `PutObject` and `GetObject`, over any library and any HTTP client.
--                    Minio/Linked gives them the library that the other modules model;
--                    Minio/Objects/Parts has the rules by which a property of all calls is proved.
--   Examples         the theorems at concrete inputs
--
-- Numbers are natural numbers; where a width matters a predicate bounds them (`IsRdmaToken`), and the
-- parser refuses what does not fit. Loops are recursion on the list they walk or on the number of
-- rounds left: `drain` has the loop's own bound, `poll_rounds` and `stage_wait` end with the list of
-- rounds, which is enough once the clock reads the deadline, and `hca_list_loop` has one turn more than
-- the list has characters, while each turn takes a comma off. A loop that goes on past its list is a
-- call that still waits.
--
-- Not modelled: printing; the loading of libibverbs (src/common/ibv-wrapper.cpp) and the HIP runtime
-- (src/common/hip-seam.cpp), which only forward; the destructor of the abandoned copies; what an
-- instance and a device release when they are destroyed; how minio-cpp builds, signs and sends a
-- request.
pub mod Prelude
pub mod Parse
pub mod Gid
pub mod Token
pub mod Transport
pub mod Pool
pub mod Topology
pub mod Buffer
pub mod Abandoned
pub mod Api
pub mod State
pub mod Minio
pub mod Examples
