-- ===== src/Tests.antt =====
-- The theorems on concrete inputs, by the part of the program that they are about.
pub mod Approvals
pub mod Budgets
pub mod Catalog
pub mod Failing
pub mod Conversing
pub mod Draining
pub mod Entering
pub mod Logging
pub mod Merging
pub mod Placing
pub mod Rereading
pub mod Recurring
pub mod Serving
