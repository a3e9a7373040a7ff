-- ===== src/Protocol.antt =====
-- dessin/protocol: Merkle trees and the commitments to model weights that rest on them.
pub mod MerkleTree
pub mod Commitments
