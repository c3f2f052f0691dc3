-- ===== src/Tests.antt =====
-- Runs of the modelled code at concrete inputs, and each theorem that has hypotheses at an input
-- that meets them.
mod Data
mod Grading
mod Submission
mod Score
mod School
mod Access
mod Reports
mod Rewards
mod Roster
mod Results
mod Resent
mod ContentImport
mod Learning
mod Provisioning
