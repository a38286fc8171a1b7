-- ===== src/Endpoints.antt =====
-- The API objects of apps/web-v2/lib/api.ts: the request that each of their functions makes.
pub mod Types
pub mod Auth
pub mod Teams
pub mod Servers
pub mod Clusters
pub mod Sources
pub mod Apps
pub mod Delivery
pub mod Databases
pub mod Volumes
pub mod Observability
pub mod DockerHub
