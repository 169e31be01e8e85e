-- ===== src/Graph.antt =====
-- Microsoft Graph as the API uses it (apps/api/src/clients/graph.client.ts), and the subscriptions to
-- its notifications (apps/api/src/services/graph-subscription.worker.ts).
pub mod Hash
pub mod Client
pub mod Calls
pub mod Subscriptions
