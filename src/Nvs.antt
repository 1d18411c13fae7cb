-- ===== src/Nvs.antt =====
-- components/rid_config/nvs_store.cpp: the two-slot store of the configuration in flash.
pub mod Errors
pub mod Bytes
pub mod Codec
pub mod Store
pub mod Tests
