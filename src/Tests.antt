-- ===== src/Tests.antt =====
-- Runs of the programs at concrete inputs.
mod Files
mod Dictionary
mod Shells
mod Small
mod Transfers
mod Interrupts
mod Servers
mod Conversion
mod Clients
mod Processes
mod Fetching
mod Joining
mod Experiments
mod Feeding
mod Posting
mod Routing
mod Talking
mod Listings
mod Popens
mod Pouring
mod Early
mod Mirrors
mod Watching
mod Numbers
