-- ===== src/WireGuard.antt =====
-- src/prima_pool_client/wireguard.py: the rendered configuration, the interface and its
-- handshakes, and key pairs in base64 over the curve of the `cryptography` package.
pub mod Base64
pub mod Keys
pub mod Conf
pub mod Manager
pub mod Handshakes
