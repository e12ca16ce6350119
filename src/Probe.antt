-- ===== src/Probe.antt =====
-- beam/scripts/platform_probe.py: the live probe's WebSocket, its Phoenix channel, its recorder and the
-- run itself.
pub mod Socket
pub mod Frames
pub mod Messages
pub mod Reads
pub mod RoundTrip
pub mod Reassembly
pub mod Progress
pub mod Recorder
pub mod Phoenix
pub mod Waiting
pub mod Session
pub mod Handshake
pub mod Steps
pub mod Token
pub mod Credentials
pub mod Live
pub mod Untouched
pub mod UntouchedSteps
pub mod Proven
pub mod Exchanged
pub mod Shown
pub mod Observes
pub mod Demonstrated
pub mod Switched
mod Examples
mod LiveExamples
mod ChannelExamples
mod TokenExamples
