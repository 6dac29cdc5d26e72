-- ===== src/Base/Codes.antt =====
-- The return codes (`utils::ReturnCode` of cpp_utils) that the sources give.
pub data ReturnCode : Type 0 where
  ok no_data not_enabled error precondition_not_met : ReturnCode
