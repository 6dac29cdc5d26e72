-- ===== src/Config.antt =====
-- The configuration of a DDS Pipe (ddspipe_core/src/cpp/configuration/DdsPipeConfiguration.cpp and
-- TopicRoutesConfiguration.cpp), and the Quality of Service of a bridge's topics.
pub mod Routes
pub mod Qos
mod Tests
