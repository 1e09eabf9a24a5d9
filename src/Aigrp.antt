-- ===== src/Aigrp.antt =====
-- server/backend/src/cq_server/aigrp: the protocol between the groups' servers. A secret for each pair
-- of groups, and envelopes signed with it. The cache against replays is the module Replay.
pub mod PairSecret
pub mod Envelope
pub mod Verify
pub mod Reasons
pub mod Checked
pub mod Once
pub mod Padding
pub mod Round
pub mod Symmetric
pub mod Errors
mod Tests
