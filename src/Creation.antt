-- ===== src/Creation.antt =====
-- How enquiries, quotes and bookings come about: create_enquiry, create_quote and create_booking of the
-- service.py in backend/app/domain/enquiry, quote and booking.
pub mod Directory
pub mod Checks
pub mod Enquiries
pub mod Granted
pub mod Quotes
pub mod Quoted
pub mod Slots
pub mod Bookings
pub mod Capacity
