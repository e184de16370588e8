-- ===== src/Extract.antt =====
-- `Protocol::extractPair` of c-http-sniffer/src/protocols/protocol.cpp: the pairs of requests and
-- responses that the ordered records of a flow hold.
pub mod Records
pub mod Fins
pub mod Requests
pub mod Responses
pub mod Flows
pub mod Tests
pub mod NewPairs
pub mod Frames
pub mod Again
pub mod Matches
pub mod Answers
pub mod Kept
