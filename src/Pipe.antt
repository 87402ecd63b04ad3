-- ===== src/Pipe.antt =====
-- The two ends of the prediction pipe: class PipeEngine (frontend/src/engine/impl/pipeEngine.hpp), which
-- writes requests and reads answers, and the reader of service/src/service/prediction_pipe_server.hpp.
pub mod Bytes
pub mod Client
pub mod Server
pub mod RoundTrip
pub mod Requests
pub mod Conversation
pub mod Ending
pub mod Answers
pub mod Untrusted
pub mod Connection
pub mod Launching
