-- ===== src/Nvs/Errors.antt =====
-- `NvsStoreError` of components/rid_config/include/rid/nvs_store.hpp.
pub data NvsStoreError : Type 0 where
  success not_found invalid_config invalid_generation payload_too_large : NvsStoreError
  storage_error corrupt incompatible_version : NvsStoreError
