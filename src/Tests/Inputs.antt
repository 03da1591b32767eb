-- ===== src/Tests/Inputs.antt =====
-- Runs of the input enumerations.
