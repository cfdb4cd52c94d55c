-- ===== src/Radio.antt =====
-- The radio front end, src/radio: the synthesizers of the two transceiver chips.
pub mod Words
pub mod Rounding
pub mod Access
pub mod Chip
pub mod Follower
pub mod TwoChips
