-- ===== src/Protocol/Address/RoundTrip.antt =====
-- Reading back what the address writer wrote, from map entries up to whole addresses.
pub mod Entries
pub mod Fields
pub mod NodeFields
pub mod Node
pub mod Region
pub mod InfoFields
pub mod Info
pub mod Written
pub mod Whole
