-- ===== src/Tests.antt =====
-- Runs of the models at concrete inputs, and the theorems at inputs that meet their hypotheses.
mod Api
mod Auth
mod Kafka
mod Ingestor
mod Intelligence
mod Log
mod Payload
mod Poller
mod Sqllite
mod Service
mod Summary
