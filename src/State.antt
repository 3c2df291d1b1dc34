-- ===== src/State.antt =====
-- src/state.h and src/state.cpp: the library's state, from `hipObjInit` to `hipObjShutdown`.
pub mod Options
pub mod Init
