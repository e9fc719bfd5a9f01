-- ===== src/Proxy.antt =====
-- The arm of a request: `_WeightedSelector` of adapters/canary_proxy/router.py.
pub mod Selector
