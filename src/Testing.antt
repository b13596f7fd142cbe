-- ===== src/Testing.antt =====
-- Runs of the model on small inputs, with a stand-in for cJSON; they show that the hypotheses of the
-- theorems can hold.
mod PlainJson
mod PlainLaws
mod Data
mod ListExamples
mod PacketExamples
mod UdpExamples
mod DaemonExamples
mod ClientExamples
mod InquiryExamples
mod LocalExamples
mod ThreadExamples
mod CallExamples
mod SystemExamples
mod LifetimeExamples
mod ProgramExamples
mod HeapExamples
