-- ===== src/Rpc.antt =====
-- Remote procedure calls over a message channel (src/flockwave/channels/rpc.py): the messages that
-- come in, the requests that go out, and the futures that wait for their responses.
pub mod Futures
pub mod Serve
pub mod Proxy
pub mod Answers
pub mod Replies
pub mod Ids
pub mod Context
pub mod Serving
pub mod Over
mod Tests
mod ContextTests
