-- ===== src/Halda.antt =====
-- src/prima_pool_client/halda.py: the layer distribution in the output of prima.cpp.
pub mod Regex
pub mod Parse
pub mod Laws
pub mod Header
pub mod Table
pub mod RoundTrip
