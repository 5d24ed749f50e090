-- ===== src/Examples.antt =====
-- Concrete inputs for the theorems on the program.
mod Codecs
mod Suggestions
mod Databases
mod Peers
mod Registrations
mod Scans
mod Responses
mod Links
mod Relays
mod Searches
mod Clients
