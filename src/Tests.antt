-- ===== src/Tests.antt =====
-- Concrete inputs, and the theorems at them.
mod Samples
mod Publishing
mod Working
mod Office
mod Buttons
mod Watching
mod Ingesting
mod Catalogue
mod Together
mod Origins
mod Delivery
mod Listing
