-- ===== src/Lib.antt =====
-- cablecheck: a verification library of the Ethernet cable checker. Two processes, one at each end
-- of a cable, talk over a framed JSON connection, drive a fixed session protocol, run measurements,
-- and evaluate the evidence to a health class, a score and recommendations.
--
-- The parts and their files:
--   Model: internal/model/health.go and the cable-test pairs of result.go. Classes, categories,
--     severities, findings.
--   Model/Bitrate, Model/Bitrate/Parse: internal/model/bitrate.go, link speeds, their text and
--     `ParseBitrate`.
--   Model/Report: what the evaluation reads of report.go, result.go and counters.go.
--   Tcpmetrics: internal/tcpmetrics/collapse.go.
--   Evaluate/Facts, Evaluate/Thresholds: the records of internal/evaluate/facts.go and the policy of
--     thresholds.go. The array of two directions is two fields; a loop over it is `each_dir`.
--   Evaluate/Counters: the counter deltas and the facts of one side, from internal/evaluate/facts.go
--     and internal/model/counters.go. A map is a list of entries, a nil snapshot is `none`.
--   Evaluate/Extract and its children: `factsFromReport` of internal/evaluate/facts.go. Directions
--     is the array of two directions, Link the speeds, modes and monitoring events, Tcp the trials of
--     a direction, Traffic pings and UDP results, Coverage what was not measured.
--   Evaluate/Totals, Physical, Transport, Performance, Host, Limitation, Rules: the rules of
--     internal/evaluate/rules.go. The rule with the identifier PHY-02 is `rule_phy02`, and so on;
--     a rule takes the facts and the thresholds and may report one finding.
--   Evaluate/Throughput: internal/evaluate/throughput.go. The part of the table that
--     physicalLayerClean picks by category is `physical_rules`, the first part of `rules`.
--   Evaluate/Classify, Engine: internal/evaluate/evaluator.go. `evaluate_with` is the function
--     `evaluate` of the source, `evaluate` its `Evaluate`.
--   Evaluate/Score, Recommend: score.go and recommend.go of internal/evaluate.
--   Peer/State: internal/peer/state.go, the table of session states and the guarded machine.
--   Peer/Ready: internal/peer/ready.go, the ready barrier and the countdown. Peer/Ready/System joins
--     two sessions by channels, to state what the barrier does for both.
--   Peer/Handshake: internal/peer/handshake.go, both halves of the handshake as actions on a connection,
--     and Peer/Handshake/Establish the accept loop of establishCoordinator in internal/peer/session.go.
--   Peer/Loop: the event loop of a session. Loop.antt is what internal/peer/session.go and loop.go own,
--     Peer/Loop/Requests is internal/peer/exec.go, Peer/Loop/Dispatch the handlers of frames and events
--     in loop.go, exec.go, rpc.go, transfer.go and the heartbeater of session.go. A frame of the
--     barrier that comes at the wrong time is `invalid` in Peer/Ready, and the loop warns and counts it.
--   Protocol/Messages: internal/protocol/messages.go and token.go, and the envelope of envelope.go.
--   Protocol/MessageId, Dedup: internal/protocol/envelope.go, minting and splitting of message
--     identifiers, and the duplicate detector.
--   Protocol/Frame: internal/protocol/framing.go, reading and writing of length-prefixed envelopes.
--   Config, Config/Resolve: internal/config. config.go and presets.go are Config, validate.go is
--     Config/Resolve; the blocks of `Resolve` are functions, chained in its order.
--   Reporting/Transfer: internal/reporting/transfer.go, the allowlist, the manifest and its checks.
--     Reporting/Transfer/Send is transfer_send.go, Reporting/Transfer/Receive is transfer_recv.go.
--   Reporting/Compare and its children Keys and Rows: internal/reporting/compare.go, the assessment and
--     the rows of the comparison of two reports.
-- The other files hold proofs and examples. Evaluate/Labels: what a rule may report at all.
-- Evaluate/Severity: the loops over the findings without the loops. Evaluate/Samples, SampleRuns
-- and SampleReport: concrete runs. Base holds what the parts share.
--
-- How the parts interact: the table runs on the facts and the policy, classification folds the
-- findings, the score is clamped to the band of the class, recommendations group the findings. A
-- saved report is evaluated again by extracting its facts first. The peers exchange frames; every
-- frame carries an identifier that one side mints and the other side observes; the session machine
-- admits what the protocol allows. A session begins with the handshake, which hands its identifiers
-- and its detector to the loop; the loop handles one event after the other, and what other
-- goroutines do to the session is an event too: the calls, warnings and idle timeouts of the plan,
-- the heartbeats and the frames of a transfer callback. At the end the coordinator sends the report
-- files over the same session.
--
-- Numbers: `int` is a signed integer with sums that wrap at 64 bits, uint64 a natural number with
-- sums modulo 2^64. float64, its rounding and its formatting are the parameter Float64, of which
-- nothing is assumed but, where two reports are compared, that floats compare as in IEEE 754.
-- encoding/json is the parameter Codec; the round trip assumes of it that what it encodes it
-- decodes again, in two bytes at least. SHA-256 is a parameter, a function from bytes to text, of
-- which nothing is assumed. net/netip, crypto/rand and the file system are the parameter Host of
-- the configuration; the addresses of the handshake are the parameter Network, of which only what
-- IsCompatible says of two configurations is assumed. Rounding in the comparison is a parameter;
-- what the theorem on its table says is for reports whose measured values are, when rounded, not
-- NaN. Bytes are natural numbers.
--
-- State: a machine, a detector or a connection is a record that each operation takes and returns.
-- Locks are left out, since each call holds its lock from start to end and is one step. A
-- connection is the bytes that will arrive and the error behind them, and the bytes written; a
-- deadline that fires is such an error. The receiver of a transfer is its directory, its part file,
-- the part files on disk and the acks it sent; each frame comes with the answers of the file
-- system, and the receiver with those of the removals, which the code ignores. The texts of errors
-- are left out, their cause is kept.
--
-- Fuel: `digits`, which prints a number, has more fuel than the number has digits, and the round
-- trips of identifiers and of link speeds need that no digit is lost. `chunks` has one unit more than
-- the file has bytes, and every chunk but the last takes at least one byte.
--
-- Not modelled: heartbeats and the teardown of a session, the parsers of tool output, the rendering of
-- reports, the schedule of the tests and the command line: they read or write outside data, or call
-- external tools, around the parts above.
pub mod Base
pub mod Float64
pub mod Model
pub mod Evaluate
pub mod Peer
pub mod Protocol
pub mod Reporting
pub mod Tcpmetrics
pub mod Config
