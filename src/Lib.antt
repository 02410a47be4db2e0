-- ===== src/Lib.antt =====
-- A model of ahl-core, the core library of the AHL Protocol (Anchored History Log), and its theorems.
--
-- The library has no global state. A receipt is verified in one run over it, which keeps budgets
-- and findings (src/receipt.rs); the run checks statements and proofs by the functions of the other
-- files, and each failure is a value of `AhlError` (src/error.rs) or `ReceiptError`.
--
-- Prelude and its children: tests on numbers, lists, text, orders (`Ord`, a stable `sort_by`), sorted
-- lists, sorted sets and maps, and integers as bytes, under the names of the Rust methods. Text and
-- bytes are lists of codes.
-- Error.antt: src/error.rs. A formatted message is the sequence of its pieces.
-- Json.antt: what the source takes from the crate serde_json, as a record that the definitions
-- take as a parameter, with what its documentation and RFC 8785 promise; Json/Toy.antt is a concrete
-- tree for the tests, Json/CanonicalText.antt one instance that keeps the promises.
-- Merkle.antt: the Merkle module of the crate atl_core as a parameter, with the RFC 6962 laws that
-- src/range_proof.rs relies on; Merkle/Roots has consequences of the laws, Merkle/Toy a concrete
-- instance.
-- RangeProof.antt: src/range_proof.rs, `generate` and `verify` with their recursions. Both recurse
-- on fuel, the size of the tree, which is enough since each half of a split is smaller; running out
-- is the value `out_of_fuel`, which the source does not have. RangeProof/Codec has `encode`, `decode` and
-- `verify_over_leaves`. Walk, Sound, Complete, Depths, Inclusion, RoundTrip, Fuel and Entries hold the
-- proofs on the verifier; Frame, Slices, Decoded, Encoded and Canonical those on the codec.
-- Base64.antt: the engine of the crate base64 as a parameter with what its documentation promises,
-- and `strip` of src/lib.rs; Base64/Toy is a concrete instance.
-- Tree.antt: src/tree.rs, with the helpers of src/lib.rs on hashes and fields that it uses; the
-- crates sha2 and hex are parameters. Opened has the proofs; Sorting is `record_sorted` of src/lib.rs, on
-- which Sortable has the proofs.
-- Commitment.antt: the identifiers and commitments of src/lib.rs, with HMAC as a parameter; Injective
-- has the proofs.
-- Envelope.antt: the signed envelopes of src/lib.rs, with the crate ed25519_dalek as a parameter;
-- Sentence and Signed hold the proofs.
-- Checkpoint.antt: the checkpoint blob of src/lib.rs and the framing that carries it; Cosigned is
-- the projection that a witness cosigns and the bytes signed. Blob and Reconciled hold the proofs on
-- the blob, Cosigned/Projected and Cosigned/Binding those on the projection and on the bytes.
-- Bitemporal.antt: src/bitemporal.rs, with the crate time as the parameter `Clock`; Ray is on
-- scopes as sets of instants.
-- Descriptor.antt: src/descriptor.rs. The loop of `parse_media_type` recurses on fuel, the length of
-- its input, of which each turn takes at least the semicolon. Tokens, Parse, Accepted, Normal and
-- Identifiers hold the proofs.
-- Closure.antt: src/closure.rs. Graph is the breadth-first loop of `affected_set`, on fuel; the number
-- of seeds and edges is enough, since each turn takes a record off the queue that no other turn
-- takes. Walk, Reach, Ends, Hops, Seeds, Affected and Checkpoint hold the proofs.
-- Receipt.antt: src/receipt.rs. Outcome, Failure and Report are its public types and the reduction
-- of a report; Run is the state of a run with its methods, where a method that takes `&mut self`
-- returns the new run; Ending is the end of a run. A rendered detail is the error it renders.
-- The other children hold the proofs: Reduction, Dominating, Recorded, Failing, Unreached and
-- Concluded on reports, Blocking, Steps, Invariants, Unique and Tolerance on runs. Steps has the
-- methods of a run as a step relation over one receipt. Fields and Common are the accessors on
-- JSON values and the common payload fields of a statement.
-- Governance.antt: the governance state of src/receipt.rs and what is in force at an entry index;
-- Schema has the readers of key objects. InForce, Snapshot and Later hold the proofs.
--
-- A machine integer is a number with its bound written out where the source saturates, checks or
-- wraps. Not modelled: hashing, signatures and base64 (other crates), serialization of reports,
-- the generators under src/bin, the fuzz targets, the governance walk itself and the phases of
-- `verify_receipt`, and of src/lib.rs the signing bytes of a checkpoint by profile, the calls of
-- the prover of atl_core and the test keys.
pub mod Prelude
pub mod Error
pub mod Json
pub mod Merkle
pub mod RangeProof
pub mod Tree
pub mod Bitemporal
pub mod Descriptor
pub mod Closure
pub mod Base64
pub mod Commitment
pub mod Envelope
pub mod Checkpoint
pub mod Receipt
pub mod Governance
