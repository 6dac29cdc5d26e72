-- ===== src/Pipe.antt =====
-- DdsPipe (ddspipe_core/src/cpp/core/DdsPipe.cpp): which topics and services are bridged. A method
-- that ends with a return code gives the code beside the new pipe.
pub mod Parts
pub mod Defs
pub mod Discovery
pub mod Topics
pub mod Loops
pub mod Invariant
pub mod Kept
pub mod Methods
pub mod Runs
pub mod History
mod Services
mod Switches
mod Bridged
pub mod Rpc
pub mod Example
mod Tests
