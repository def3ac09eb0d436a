-- ===== src/OpDumper.antt =====
-- The operation dumper beside the simulator: op_dumper/, memory operations and the trace files
-- that keep them.
pub mod Codes
pub mod Outcome
pub mod Operation
pub mod Binary
pub mod Trace
pub mod Sync
pub mod Fields
pub mod Tables
pub mod Logged
pub mod Fixed
pub mod Units
pub mod Payload
pub mod Values
pub mod RoundTrip
pub mod Main
pub mod WholeTrace
pub mod Copies
pub mod Coding
pub mod Setters
pub mod Stale
pub mod Closed
