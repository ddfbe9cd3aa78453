-- ===== src/Cache.antt =====
-- The response cache: the data store (src/infra/data_store.py) and the handler that looks requests
-- up in it before it asks a language model (src/infra/data_handler.py).
pub mod Chain
pub mod Dispatch
pub mod Store
pub mod Terms
pub mod Handler
pub mod Hits
