-- ===== src/Tests.antt =====
-- Runs of the model on small inputs, and the theorems at inputs that meet their hypotheses.
mod Fixtures
mod BoardTests
mod RuleTests
mod GameTests
mod FlightTests
mod MatchTests
mod InputTests
mod LimitTests
mod TextTests
mod LogTests
mod ScriptTests
mod SmallJson
mod WireTests
mod RoomTests
mod LoginTests
