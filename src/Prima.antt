-- ===== src/Prima.antt =====
-- src/prima_pool_client/prima.py: the process environment, the captured output, the hash of
-- the model file and the launcher.
pub mod Env
pub mod Capture
pub mod Hash
pub mod Launcher
