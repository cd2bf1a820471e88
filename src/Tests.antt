-- ===== src/Tests.antt =====
-- Concrete runs of the model.
mod World
mod Pipeline
mod Steps
mod KernelExamples
mod StoreExamples
mod TamperExample
mod AccountExample
mod IngressExamples
mod HotpathExamples
mod SwarmExamples
