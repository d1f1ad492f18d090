-- ===== src/Lib.antt =====
-- A verification library for the trust core of CDK, the kernel that lets AI agents act only through
-- capabilities: the tokens, the handles that agents hold, the policy over those handles, the signed
-- approvals of the operators, the audit log, the scheduler, the link to the gateway with its sealed
-- channel, and physical memory.
--
-- How the parts interact. The kernel issues a capability token on an object (src/capability.rs), an
-- agent holds it in its handle table and may derive weaker ones (src/agent.rs). Every widening of
-- what agents reach is reviewed against the policy (src/policy.rs) and asked of the operators
-- (src/approvals.rs), whose signatures travel in messages (link/src/approval.rs). Decisions are
-- recorded in the audit log (src/audit.rs). Tasks run in order of priority (src/scheduler.rs). What
-- the kernel says to the gateway on the host goes through frames (link/src/lib.rs) and, once keys
-- are agreed on, through a sealed session (link/src/secure.rs), as src/link.rs puts them together.
-- Page frames come from one allocator (src/allocator.rs).
--
-- Which file models which part:
-- - Capability: src/capability.rs, permissions and their masks. Capability/Token: signable_digest,
--   issue_with, verify_with, verify. Capability/Cache: the module verify_cache.
-- - Agent: HandleTable of src/agent.rs, with attenuate. Agent/Permissions: parse_permissions and
--   permission_names.
-- - Policy: rules, grants and labels of src/policy.rs. Policy/Rules: violations and the edits of a
--   policy. Policy/Parse: Rule::parse and Policy::parse, with valid_node_name and valid_object_name
--   of link/src/peer.rs. Policy/Reach: diff. Policy/Review: the policy state with load_boot_policy,
--   review_grants, edit, set_review and the staged batch.
-- - Approvals: src/approvals.rs, open, the voting of on_message once a decision is complete,
--   check_timeouts and close. Approvals/Messages: on_message whole, from the bytes of a message.
--   statement is in link/src/approval.rs.
-- - Link/Approval: encode_request, encode_decision, encode_resolved, decode and Assembler of
--   link/src/approval.rs.
-- - Link/Frame: link/src/lib.rs whole, encode, crc32 and Decoder, with poll of src/link.rs.
-- - Link/Secure/Session: Session of link/src/secure.rs, with recv and send_data of src/link.rs.
--   Link/Secure/Fragments: for_each_fragment and Reassembler, with the loops of send_message and
--   wait_handshake in src/link.rs. Link/Secure/Handshake: client_hello, server_respond,
--   client_finish, server_finish with Identity, Signature, digest and derive. Link/Secure/Connect:
--   secure_connect_inner of src/link.rs.
-- - Memory/Frames: FrameAllocator and boot::init of src/allocator.rs, and phys_to_virt_addr of
--   src/phys_mem.rs. Memory/Graph: src/memory_graph.rs.
-- - Audit: AuditLog of src/audit.rs, with record_hash, checkpoint_digest and truncate.
-- - Scheduler: src/scheduler.rs, with slot_for_apic of src/percpu.rs.
-- - Prelude: tests, lists, searches, results, bits of a word, bytes, the cutting of texts, and
--   sorting of numbers.
--
-- How state and operations correspond. A struct is a record and an enum a data type; a method that
-- changes its object returns the new one. A bounded vector is a list and a test of its length, a
-- string is the list of its bytes. An error is a value of Result, an audit record a value in a list
-- of events. A global behind a lock is a state that an operation takes and returns: one call is one
-- step. Numbers are natural numbers; where the program's words wrap around, as sums do in a
-- release build, the remainder is written out.
--
-- Parameters. SHA-256 is a function on byte lists, and theorems that rest on it say that either the
-- result holds or two different inputs have one hash. A signature scheme is a function that checks,
-- and where an issuer signs, the law that its signatures verify. The order that sort_unstable gives
-- to tasks of one priority is left open: a Sorting is any function whose result is in order and has
-- the same tasks. The two sides of X25519 and of ML-KEM agree on their secrets; HKDF is any
-- function. The AEAD of the sealed session is a pair of functions of key, nonce, associated data
-- and text: what is encrypted is decrypted, what decrypts was so encrypted, a ciphertext has the
-- length of its text and a tag 16 bytes. What inserting does to the map of the memory graph is a
-- record of its documented behaviour, which leaves open whether an id is replaced where the map is
-- full. The operators' answers, the clock, the bytes of the boot policy, the memory map and the
-- pieces in which the transport hands bytes over are arguments.
--
-- Bounds. Loops are structural recursion. The parts of a signature are cut with as much fuel as it
-- has bytes, which is enough, since every part takes at least one. The decoder's loop has one round
-- more than the buffer has bytes: each round that goes on drops a byte. The receive loop takes at
-- least one byte of a piece each time, and the search for a run of frames starts behind a used
-- frame each time; that their fuel is enough is part of what is proved of them.
--
-- White space in policy files is that of ASCII: the rest of Unicode's is not cut at. Array indices
-- that the code does not reach read 0. Counters that only count events are natural numbers.
--
-- The audit log holds as many records as an argument says, the const parameter of the source.
--
-- What is not modelled: what is printed, the kernel-wide audit log around AuditLog, the kernel's
-- table of agents with its system calls, the loading of the operators' keys, the signature schemes
-- of the link, the messages of tools, peers, store and attestation, the heap, device drivers,
-- paging and interrupts, and the gateway on the host.
pub mod Agent
pub mod Approvals
pub mod Audit
pub mod Capability
pub mod Link
pub mod Memory
pub mod Policy
pub mod Prelude
pub mod Scheduler
