-- ===== src/Fixture/Complete.antt =====
-- A proof run of the fixture and the validation of its receipts.
use mandate_flow.Proof.Choreography.{Choreography}
