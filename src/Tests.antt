-- ===== src/Tests.antt =====
-- Runs of the definitions on concrete data, and the theorems at inputs that meet their hypotheses.
mod ProjectionTests
mod SupervisionSamples
mod SupervisionTests
mod RequestTests
mod ReleaseTests
mod QueueSamples
mod QueueTests
mod EventLoopTests
mod WorkspaceTests
mod PrecedenceTests
mod CloudStopsTests
