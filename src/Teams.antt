-- ===== src/Teams.antt =====
-- The team_list workers: the claim with a country filter, the claim loop, and what it does to the
-- queue and to the URL registry.
pub mod Claim
pub mod Loop
pub mod Registry
pub mod Head
pub mod Stuck
mod Tests
