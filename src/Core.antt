-- ===== src/Core.antt =====
-- src/core: the infrastructure that the domains share.
pub mod Snowflake
pub mod Redis
pub mod ClientIp
pub mod LoginThrottle
pub mod Sessions
pub mod WorkerId
