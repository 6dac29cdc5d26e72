-- ===== src/Rpc.antt =====
-- Services over RPC: RpcTopic (ddspipe_core/src/cpp/types/topic/rpc/RpcTopic.cpp), with the texts it
-- works on, and RpcBridge (ddspipe_core/src/cpp/communication/rpc/RpcBridge.cpp).
pub mod Text
pub mod Topic
pub mod Naming
pub mod Recognised
pub mod Parts
pub mod Bridge
pub mod Transmit
pub mod Lifecycle
pub mod Enabled
pub mod Runs
pub mod Requests
pub mod Forwarded
pub mod RoundTrip
mod Tests
