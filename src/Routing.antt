-- ===== src/Routing.antt =====
-- DdsBridge, with the routes and the participants that it reads: ParticipantsDatabase.cpp,
-- RoutesConfiguration.cpp and DdsBridge.cpp, under ddspipe_core/src/cpp.
pub mod Defs
pub mod Select
mod Tracks
pub mod Valid
mod Tests
