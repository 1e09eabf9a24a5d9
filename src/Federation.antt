-- ===== src/Federation.antt =====
-- server/backend/src/cq_server/aigrp: which of the peers a query is sent to. The Bloom filter of a
-- peer's domains (aigrp/_legacy.py) and the choice (aigrp/federation.py).
pub mod Bits
pub mod Bloom
pub mod Claimed
pub mod Endpoint
pub mod Peers
pub mod Selected
mod Tests
