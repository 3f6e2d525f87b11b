-- ===== src/Statics.antt =====
-- Static variables that are initialised where they are first needed: cpp/c++_software_design/singleton/singleton.cpp
-- and cpp/magic_static.cpp, run by one thread.
pub mod Singleton
pub mod Injected
pub mod Magic
mod Tests
