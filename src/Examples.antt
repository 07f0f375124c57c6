-- ===== src/Examples.antt =====
-- Tests of the definitions on concrete inputs, and each theorem at an input that meets its
-- hypotheses.
mod LimiterExamples
mod ProtectionExamples
mod SyncExamples
mod IdentityExamples
mod CertExamples
mod SessionExamples
mod AdminExamples
