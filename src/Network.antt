-- ===== src/Network.antt =====
-- The network drawn from observed packets: frontend/src/networkGraph/packetNetworkGraph.ts with the
-- data layer of frontend/src/utils/visualizerUtils.ts.
pub mod Steps
pub mod Traffic
pub mod Graph
pub mod Context
pub mod Guess
pub mod Resolve
pub mod PayloadType
pub mod Ingest
pub mod Visibility
pub mod Project
pub mod Prune
