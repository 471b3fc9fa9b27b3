-- ===== src/Runtime.antt =====
-- server/runtime: the self-proving runtime and its kernel.
pub mod StateMachine
pub mod FailureBus
pub mod Recovery
pub mod Consistency
pub mod ProofLedger
pub mod ProofEngine
pub mod Kernel
pub mod MicroKernel
pub mod ControlPlane
pub mod FrameLocking
pub mod Causal
pub mod Dispatcher
