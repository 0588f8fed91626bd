-- ===== src/Streaming.antt =====
-- frontend/domains/transcription/lib/audioStreamingRuntime.ts, hooks/audioStreamingPolicy.ts and
-- hooks/useAudioStreaming.ts: the browser sends recorded audio to the server, in order.
pub mod Policy
pub mod Runtime
pub mod Acks
pub mod Order
pub mod Fallback
