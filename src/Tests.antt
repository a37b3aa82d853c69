-- ===== src/Tests.antt =====
-- Concrete instances of the parameters, and the theorems at concrete inputs.
mod Json
mod Counter
mod Server
mod Readers
mod ActorExamples
mod ReaderExamples
mod LiveExamples
mod RegistryExamples
mod StoreExamples
mod ShutdownExamples
mod RaceExamples
mod SavedExamples
mod ExampleRuns
mod TransportExamples
mod OrderExamples
mod TogetherExamples
mod RedoneExamples
mod FileExamples
