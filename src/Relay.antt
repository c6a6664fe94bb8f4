-- ===== src/Relay.antt =====
-- router/internal/app/openai.go: the relay of OpenAI-compatible requests. Body holds the request, Response
-- the copy of
-- the upstream answer, Attempts the loop over providers.
pub mod Body
pub mod Response
pub mod Attempts
pub mod Auth
pub mod Handler
pub mod Usage
pub mod Listings
pub mod Serve
mod Tests
