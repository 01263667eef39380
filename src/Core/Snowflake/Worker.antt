-- ===== src/Core/Snowflake/Worker.antt =====
-- The worker number of the process.
