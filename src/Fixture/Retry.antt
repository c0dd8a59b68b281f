-- ===== src/Fixture/Retry.antt =====
-- What a retry of the fixture that returns has left in its transcript.
use mandate_flow.Fixture.Ends.{Ends}
