-- ===== src/Tests.antt =====
-- Runs of the models on small inputs, and the theorems at inputs that meet their hypotheses.
mod Samples
mod Signing
mod GatewayRuns
mod RoutingRuns
mod AuthRuns
mod TokenRuns
mod NotificationRuns
mod UserRuns
mod FrontendRuns
mod PlatformRuns
mod EntryRuns
mod DashboardRuns
mod SessionRuns
mod PipelineRuns
