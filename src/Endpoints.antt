-- ===== src/Endpoints.antt =====
-- The readers and writers of the participants (ddspipe_participants/src/cpp/reader and .../writer), as
-- far as these do not come from Fast DDS.
pub mod SpecificQos
pub mod Sampling
pub mod Reader
pub mod Internal
pub mod Writer
pub mod Multi
mod Tests
