-- ===== src/Tests.antt =====
-- Runs on concrete inputs: the samples, and one module for each part of the program.
mod Samples
mod WireRuns
mod CommandRuns
mod CommRuns
mod MonitorRuns
mod ReloadRuns
mod ConfigRuns
mod RequestRuns
mod DazeusRuns
mod ConnectionRuns
mod SqliteRuns
mod PostgresRuns
mod MongoRuns
