-- ===== src/Forward.antt =====
-- server/backend/src/cq_server: the query that one group's server forwards to another's. Who asks
-- (aigrp/_legacy.py, forward_sign.py), what is found (store/_sqlite.py), and how much of it the other
-- side may see (app.py).
pub mod Identity
pub mod Search
pub mod Query
pub mod Found
pub mod Collected
pub mod Named
pub mod Answer
pub mod Shared
pub mod Signed
mod Tests
