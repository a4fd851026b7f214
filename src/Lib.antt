-- ===== src/Lib.antt =====
-- Verification of the Collective Phase Control Fabric, a Python program that keeps signed evidence
-- about networks of transformations and decides what the evidence supports.
--
-- Paths of the program start from the repository's root; SA stands for
-- src/collective_phase_control_fabric/v6/structural_analysis.py, and CO for
-- src/collective_phase_control_fabric/v6/coordination.py.
--
-- The parts.
--   * Prelude: shared names, Boolean tests, lists over the native numbers, and Cost, the model of
--     an analysis budget: a value with the number of calls of budget.spend() made for it.
--   * Ids: Python's sets and tuples of identifiers as lists, sorted(), and dictionaries.
--   * Numbers: integers and Python's Fraction.
--   * Enumeration: itertools.combinations and the search for minimal subsets that SA makes for
--     siphons, cut sets and enablement sets.
--   * Structural: TransformationSpec and _flows of SA. Closure is structural_closure, Siphons is
--     enumerate_minimal_siphons and unfed_siphons, Cuts is enumerate_minimal_cut_sets and
--     enumerate_minimal_enablement_sets, Raf is _raf_closure, _is_generalized_raf and
--     exact_generalized_generative_raf. The searches of Cuts call the closure of Closure.
--   * Coordination: the plan and event documents of v6/models.py. Plan is
--     coordination_plan_integrity, the checks of a plan document. Chain is _ordered_events, Session
--     is validate_coordination of CO, its loop as a step on the record of the loop's variables.
--   * Barrier: barrier.py, build_barrier_vector with its loops as functions on the locals `mapping` and
--     `refs`, and dominates.
--   * Trust: src/collective_phase_control_fabric/v6/trust.py with the documents of v6/models.py that
--     it reads. Encoding is dsse_pae, Keys is _public_key, public_key_fingerprint and
--     _verify_signature, Policy is validate_policy, _principal and _time_status, Envelope is
--     verify_envelope, Quorum is evaluate_quorum, Update is inspect_genesis, verify_policy_update
--     and verify_trusted_time_advance, Signing is build_protected_header, _signature_bytes and
--     sign_document. Quorum calls Envelope, which calls Policy and Keys.
--   * Runner: the documents of a job. Receipt is validate_receipt of v6/runner.py. Gateway is
--     packages/cpcf-api/src/cpcf_api/runner_gateway.py: InMemoryRunnerGateway as a record of its
--     dictionaries, with register, authenticate, idempotent and _active_state; Gateway.Dispatch is
--     RunnerTask.__post_init__ and dispatch, Gateway.Claim claim, Gateway.Lease heartbeat,
--     record_artifact and remaining_artifact_bytes, Gateway.Complete complete, which calls Receipt.
--     Gateway.Validation is what pydantic checks of the RunnerJobSpec that claim makes; a claim whose
--     job does not validate raises with the state already leased.
--
-- State and errors. A `while` loop is a function of fuel. The closures and the generative layers
-- get one round more than there are transformations, which is enough: every round but the last
-- fires a transformation that did not fire before. The chain of events gets one round for each
-- event, which is enough where their digests differ. A session records the texts of its blockers
-- as the code does, the latest first, since only sorted(set(blockers)) is read. A method of the
-- gateway yields a value or the code that it raises, together with the state that it leaves: its
-- lock makes it one step.
--
-- What is a parameter. digest_bytes(canonical_bytes(..)) is an argument of the definitions of
-- Session, and Python's test for a part of a text one of those of Barrier. The digest of a document is
-- a field of its record. Trust takes three records of functions: Crypto and Signing, what the code
-- uses of base64 and of the cryptography library, and Codec, the reading of a payload and the digest
-- of a kind's schema. The gateway's verifier, signer and object store, the token of a lease and the
-- reading of an output document are parameters of Runner, in the records Services and Json; so are
-- the match of a text with a pattern, the length of a text and pydantic's error. Times are counts of
-- one unit, which the addition of a lease does not overflow.
--
-- What is not modelled: curve bounds, null spaces, flux coupling and occurrence prefixes of SA;
-- the Envoy header and the web routes of the gateway; the other documents and analyses; files,
-- processes, the web service and the command line.
pub mod Prelude
pub mod Ids
pub mod Numbers
pub mod Enumeration
pub mod Structural
pub mod Coordination
pub mod Barrier
pub mod Trust
pub mod Runner
