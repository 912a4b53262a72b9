-- ===== src/Tests.antt =====
-- Runs of the program at concrete inputs.
mod Data
mod Texts
mod Policies
mod Versions
mod Requests
mod Executions
mod Catalog
mod Secrets
mod Actions
mod Service
mod Administration
