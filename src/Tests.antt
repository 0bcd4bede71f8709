-- ===== src/Tests.antt =====
-- Runs at concrete inputs of what the modules state.
mod Windows
mod Stores
mod Pipeline
mod Guards
mod Polling
mod Ingestion
mod Swag
mod Schema
mod Api
mod Access
mod Readers
