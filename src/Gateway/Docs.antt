-- ===== src/Gateway/Docs.antt =====
-- services/api-gateway/app/services/docs_aggregator: the services' OpenAPI documents as one.
pub mod Merger
pub mod Fetcher
pub mod Paths
